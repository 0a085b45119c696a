-- ===== src/Connect/Spans/Groups.antt =====
-- Which spans a group holds.
use e_bpf_lens.Prelude.{
  String, true, false, not, ◌&&◌, Option, none, some, List, [], ◌∷◌, ◌++◌, ◌≡◌, refl, ◌∙◌, ap, sym,
  Map, lookup, lookup-insert, if◌then◌else◌, or_else, Bool-cases, inl, inr, ◌==◌, eq_iff,
}
use e_bpf_lens.Connect.Spans.{
  SpanApi, SpanAndAttributes, attributes_of, skipped, add_to_group, group_loop,
  group_connection_spans,
}

module _ {Span Attr : Type 0} (api : SpanApi Span) (getters : List (Span → Attr)) where
  -- The span with its attributes.
  abbrev decorated : Span → SpanAndAttributes Span Attr
  decorated span = record { span = span; attributes = attributes_of api getters span }

  -- The spans of the service that are not skipped, in their order.
  abbrev pub spans_of : String → List Span → List (SpanAndAttributes Span Attr)
  spans_of u [] = []
  spans_of u (span ∷ spans) =
      let rest = spans_of u spans in
      if not (skipped api span) && (api.uid span == u) then decorated span ∷ rest else rest

  abbrev pub non_empty :
      List (SpanAndAttributes Span Attr) → Option (List (SpanAndAttributes Span Attr))
  non_empty [] = none
  non_empty (s ∷ ss) = some (s ∷ ss)

  append-here :
      (xs : List (SpanAndAttributes Span Attr)) (x : SpanAndAttributes Span Attr)
      (zs ws : List (SpanAndAttributes Span Attr))
      → ws ≡ x ∷ zs
      → (xs ++ x ∷ []) ++ zs ≡ xs ++ ws
  append-here [] x zs ws h = sym h
  append-here (y ∷ xs) x zs ws h = ap (λ l. y ∷ l) (append-here xs x zs ws h)

  non_empty-append :
      (xs : List (SpanAndAttributes Span Attr)) (x : SpanAndAttributes Span Attr)
      → non_empty (xs ++ x ∷ []) ≡ some (xs ++ x ∷ [])
  non_empty-append [] x = refl
  non_empty-append (y ∷ xs) x = refl

  abbrev group_at :
      String → Map (List (SpanAndAttributes Span Attr)) → List (SpanAndAttributes Span Attr)
  group_at u groups = or_else (lookup u groups) []

  append_nil : (xs : List (SpanAndAttributes Span Attr)) → xs ++ [] ≡ xs
  append_nil [] = refl
  append_nil (x ∷ xs) = ap (λ l. x ∷ l) (append_nil xs)

  lookup-add :
      (u : String) (span : Span) (groups : Map (List (SpanAndAttributes Span Attr)))
      → lookup u (add_to_group api getters span groups) ≡ (
          if api.uid span == u
          then some (group_at u groups ++ decorated span ∷ [])
          else lookup u groups)
  unfolding add_to_group
  lookup-add u span groups = elim (Bool-cases (api.uid span == u)) [
    | inl e ↦ lookup-insert (api.uid span) u _ groups ∙ rw e (rw ((eq_iff (api.uid span) u).0 e))
    | inr e ↦ lookup-insert (api.uid span) u _ groups ∙ rw e
  ]

  spans_of-here :
      (u : String) (span : Span) (spans : List Span)
      → skipped api span ≡ false
      → (api.uid span == u) ≡ true
      → spans_of u (span ∷ spans) ≡ decorated span ∷ spans_of u spans
  spans_of-here u span spans k e = rw k (rw e)

  spans_of-skip :
      (u : String) (span : Span) (spans : List Span)
      → (not (skipped api span) && (api.uid span == u)) ≡ false
      → spans_of u (span ∷ spans) ≡ spans_of u spans
  spans_of-skip u span spans k = rw k

  group_loop-kept :
      (span : Span) (spans : List Span) (groups : Map (List (SpanAndAttributes Span Attr)))
      → skipped api span ≡ false
      → group_loop api getters (span ∷ spans) groups
        ≡ group_loop api getters spans (add_to_group api getters span groups)
  unfolding group_loop
  group_loop-kept span spans groups k = rw (k, group_loop)

  lookup-group_loop :
      (u : String) (spans : List Span) (groups : Map (List (SpanAndAttributes Span Attr)))
      → lookup u groups ≡ non_empty (group_at u groups)
      → lookup u (group_loop api getters spans groups)
        ≡ non_empty (group_at u groups ++ spans_of u spans)
  unfolding group_loop
  lookup-group_loop u [] groups h = h ∙ ap non_empty (sym (append_nil (group_at u groups)))
  lookup-group_loop u (span ∷ spans) groups h = elim (Bool-cases (skipped api span)) [
    | inl k ↦ rw (k, group_loop) (lookup-group_loop u spans groups h)
    | inr k ↦
        let added = add_to_group api getters span groups in
        elim (Bool-cases (api.uid span == u)) [
          | inl e ↦
              let found : lookup u added ≡ some (group_at u groups ++ decorated span ∷ []) =
                lookup-add u span groups ∙ rw e in
              ap (lookup u) (group_loop-kept span spans groups k)
              ∙ (lookup-group_loop u spans added (
                    found
                    ∙ sym (non_empty-append (group_at u groups) (decorated span))
                    ∙ ap (λ o. non_empty (or_else o [])) (sym found))
                  ∙ ap (λ l. non_empty (l ++ spans_of u spans)) (ap (λ o. or_else o []) found)
                  ∙ ap non_empty (
                      append-here (group_at u groups) (decorated span) (spans_of u spans)
                        (spans_of u (span ∷ spans)) (spans_of-here u span spans k e)))
          | inr e ↦
              let found : lookup u added ≡ lookup u groups = lookup-add u span groups ∙ rw e in
              ap (lookup u) (group_loop-kept span spans groups k)
              ∙ (lookup-group_loop u spans added
                    (found ∙ h ∙ ap (λ o. non_empty (or_else o [])) (sym found))
                  ∙ ap (λ o. non_empty (or_else o [] ++ spans_of u spans)) found
                  ∙ ap (λ l. non_empty (group_at u groups ++ l))
                      (sym (spans_of-skip u span spans (rw k (rw e)))))
        ]
  ]

  -- A service has a group exactly if it has a span that is neither internal nor discarded, and the
  -- group holds all these spans of the service, in their order, each with its attributes.
  pub lookup-group_connection_spans :
      (spans : List Span) (u : String)
      → lookup u (group_connection_spans api getters spans) ≡ non_empty (spans_of u spans)
  unfolding group_connection_spans lookup
  lookup-group_connection_spans spans u = lookup-group_loop u spans [] refl
