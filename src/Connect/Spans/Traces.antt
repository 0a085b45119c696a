-- ===== src/Connect/Spans/Traces.antt =====
-- The spans that are sent: their identifiers and times, and what `processSpans` hands on.
use e_bpf_lens.Prelude.{
  true, ◌⊎◌, inl, inr, Bool-cases, ℕ, suc, ◌≤◌, false, some, List, [], ◌∷◌, ◌≡◌, ◌≢◌, refl, arith,
  eqb,
}
use e_bpf_lens.Connect.Spans.{
  SpanApi, SpanAndAttributes, OutSpan, IdGenerator, span_start_time, out_span, out_spans,
  generate_connect_spans,
}

module _ {Span Attr : Type 0} (api : SpanApi Span) (ids : IdGenerator) where
  -- `o` is what is sent for `s`: it has the trace and the span of `s` where these are set, and drawn
  -- ones otherwise, so that both are always set.
  pub record IsSent (s : SpanAndAttributes Span Attr) (o : OutSpan Attr) : Type 0 where
    has_trace_id : eqb o.trace_id 0 ≡ false
    has_span_id : eqb o.span_id 0 ≡ false
    same_trace_id : (eqb (api.trace_id s.span) 0 ≡ true) ⊎ (o.trace_id ≡ api.trace_id s.span)
    same_span_id : (eqb (api.span_id s.span) 0 ≡ true) ⊎ (o.span_id ≡ api.span_id s.span)
    pub parent : o.parent_span_id ≢ some 0
    starts_before_request : o.start_timestamp ≤ api.request_start s.span
    starts_before_start : o.start_timestamp ≤ api.start s.span
    same_attributes : o.attributes ≡ s.attributes

  abbrev pub Pairs : List (SpanAndAttributes Span Attr) → List (OutSpan Attr) → Type 0
  Pairs [] [] = Unit
  Pairs [] (o ∷ os) = ⊥
  Pairs (s ∷ ss) [] = ⊥
  Pairs (s ∷ ss) (o ∷ os) = IsSent s o × Pairs ss os

  module _ (drawn_traces : (n : ℕ) → eqb (ids.random_trace_id n) 0 ≡ false)
      (drawn_spans : (n : ℕ) → eqb (ids.random_span_id n) 0 ≡ false) where
    out_span-IsSent : (n : ℕ) (s : SpanAndAttributes Span Attr) → IsSent s (out_span api ids n s)
    unfolding out_span span_start_time
    out_span-IsSent n s = record {
      has_trace_id = ground (arith, drawn_traces n);
      has_span_id = ground (arith, drawn_spans n);
      same_trace_id = elim (Bool-cases (eqb (api.trace_id s.span) 0)) [
        | inl e ↦ inl e
        | inr e ↦ inr (ground arith)
      ];
      same_span_id = elim (Bool-cases (eqb (api.span_id s.span) 0)) [
        | inl e ↦ inl e
        | inr e ↦ inr (ground arith)
      ];
      parent = λ e. ground arith;
      starts_before_request = ground arith;
      starts_before_start = ground arith;
      same_attributes = refl;
    }

    out_spans-Pairs :
        (n : ℕ) (ss : List (SpanAndAttributes Span Attr)) → Pairs ss (out_spans api ids n ss)
    unfolding out_spans
    out_spans-Pairs n [] = tt
    out_spans-Pairs n (s ∷ ss) = (out_span-IsSent n s, out_spans-Pairs (suc n) ss)

    -- Each span of the group is sent once, in the order of the group, with trace and span identifiers
    -- that are set and that are its own where it has them, with a parent only if one is set, and with
    -- a start that is neither after the start of the request nor after its own. The identifiers that
    -- are drawn are set.
    pub generate_connect_spans-Pairs :
        (ss : List (SpanAndAttributes Span Attr)) → Pairs ss (generate_connect_spans api ids ss)
    unfolding generate_connect_spans
    generate_connect_spans-Pairs ss = out_spans-Pairs 0 ss
