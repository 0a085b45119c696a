-- ===== src/Connect/Spans/Sending.antt =====
-- What `processSpans` hands to the exporter.
use e_bpf_lens.Prelude.{
  String, some, List, [], ◌∷◌, ◌++◌, ◌≡◌, refl, arith, ap, sym, Map, lookup, insert, or_else, All,
  Bool-cases, Option-cases, inl, inr, ◌==◌, subst,
}
use e_bpf_lens.Connect.Spans.{
  SpanApi, SpanAndAttributes, OutSpan, IdGenerator, attributes_of, skipped, add_to_group,
  group_loop, group_connection_spans, generate_connect_spans, refresh_sample, send_one, send_groups,
  process_spans,
}

module _ {Span Attr : Type 0} (api : SpanApi Span) (getters : List (Span → Attr)) where
  -- The group has a first span, and that span has the attributes that the getters give.
  abbrev IsFresh : List (SpanAndAttributes Span Attr) → Type 0
  IsFresh [] = ⊥
  IsFresh (s ∷ ss) = s.attributes ≡ attributes_of api getters s.span

  abbrev AreFresh : Map (List (SpanAndAttributes Span Attr)) → Type 0
  AreFresh = All (λ entry. IsFresh entry.1)

  -- Each group as traces, whatever it holds.
  abbrev traces_of :
      (String → IdGenerator) → Map (List (SpanAndAttributes Span Attr)) → List (List (OutSpan Attr))
  traces_of ids [] = []
  traces_of ids ((u, group) ∷ groups) =
      generate_connect_spans api (ids u) group ∷ traces_of ids groups

  AreFresh-insert :
      (u : String) (group : List (SpanAndAttributes Span Attr))
      (groups : Map (List (SpanAndAttributes Span Attr)))
      → IsFresh group
      → AreFresh groups
      → AreFresh (insert u group groups)
  unfolding insert
  AreFresh-insert u group [] new h = (new, tt)
  AreFresh-insert u group ((name, old) ∷ groups) new (first, h) = elim (Bool-cases (name == u)) [
    | inl e ↦ rw (e, insert) (new, h)
    | inr e ↦ rw (e, insert) (first, AreFresh-insert u group groups new h)
  ]

  IsFresh-lookup :
      (u : String) (group : List (SpanAndAttributes Span Attr))
      (groups : Map (List (SpanAndAttributes Span Attr)))
      → AreFresh groups
      → lookup u groups ≡ some group
      → IsFresh group
  unfolding lookup
  IsFresh-lookup u group [] h e = absurd (ground arith)
  IsFresh-lookup u group ((name, old) ∷ groups) (first, h) e = elim (Bool-cases (name == u)) [
    | inl same ↦ subst IsFresh {x = old} {y = group} (ground arith) first
    | inr differ ↦ IsFresh-lookup u group groups h (ground arith)
  ]

  IsFresh-append :
      (group : List (SpanAndAttributes Span Attr)) (s : SpanAndAttributes Span Attr)
      → IsFresh group
      → IsFresh (group ++ s ∷ [])
  IsFresh-append [] s h = absurd h
  IsFresh-append (t ∷ ts) s h = h

  AreFresh-add :
      (span : Span) (groups : Map (List (SpanAndAttributes Span Attr)))
      → AreFresh groups
      → AreFresh (add_to_group api getters span groups)
  unfolding add_to_group
  AreFresh-add span groups h = AreFresh-insert (api.uid span) _ groups grown h
    where
      added : SpanAndAttributes Span Attr
      added = record { span = span; attributes = attributes_of api getters span }

      grown : IsFresh (or_else (lookup (api.uid span) groups) [] ++ added ∷ [])
      grown = elim (Option-cases (lookup (api.uid span) groups)) [
        | inl e ↦ rw e refl
        | inr (g, e) ↦ rw e (IsFresh-append g added (IsFresh-lookup (api.uid span) g groups h e))
      ]

  AreFresh-group_loop :
      (spans : List Span) (groups : Map (List (SpanAndAttributes Span Attr)))
      → AreFresh groups
      → AreFresh (group_loop api getters spans groups)
  unfolding group_loop
  AreFresh-group_loop [] groups h = h
  AreFresh-group_loop (span ∷ spans) groups h = elim (Bool-cases (skipped api span)) [
    | inl k ↦ rw (k, group_loop) (AreFresh-group_loop spans groups h)
    | inr k ↦
        rw (k, group_loop)
          (AreFresh-group_loop spans (add_to_group api getters span groups)
            (AreFresh-add span groups h))
  ]

  send_one-traces :
      (ids : IdGenerator) (group : List (SpanAndAttributes Span Attr))
      → IsFresh group
      → send_one api ids getters group ≡ generate_connect_spans api ids group ∷ []
  unfolding refresh_sample
  send_one-traces ids [] h = absurd h
  send_one-traces ids (s ∷ ss) h =
      ap (λ l. generate_connect_spans api ids (record s { attributes = l } ∷ ss) ∷ []) (sym h)

  send_groups-traces :
      (ids : String → IdGenerator) (groups : Map (List (SpanAndAttributes Span Attr)))
      → AreFresh groups
      → send_groups api ids getters groups ≡ traces_of ids groups
  unfolding send_groups
  send_groups-traces ids [] h = refl
  send_groups-traces ids ((u, group) ∷ groups) (first, h) =
      rw (send_one-traces (ids u) group first) (rw (send_groups-traces ids groups h))

  -- Each group is sent, as the traces of its spans with the attributes that they were grouped with:
  -- the guard against an empty group never strikes, and writing the attributes of the first span
  -- anew changes nothing.
  process_spans-traces :
      (ids : String → IdGenerator) (spans : List Span)
      → process_spans api ids getters spans
        ≡ traces_of ids (group_connection_spans api getters spans)
  unfolding process_spans group_connection_spans
  process_spans-traces ids spans =
      send_groups-traces ids (group_loop api getters spans []) (AreFresh-group_loop spans [] tt)
