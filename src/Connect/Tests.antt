-- ===== src/Connect/Tests.antt =====
-- Runs of the grouping and of the generation of spans.
use e_bpf_lens.Prelude.{ℕ, suc, String, Bool, true, false, List, [], ◌∷◌, ◌≡◌, arith, lookup}
use e_bpf_lens.Connect.Spans.{
  SpanApi, SpanAndAttributes, IdGenerator, group_connection_spans, generate_connect_spans,
}
use e_bpf_lens.Connect.Spans.Groups.{non_empty, spans_of, lookup-group_connection_spans}
use e_bpf_lens.Connect.Spans.Traces.{Pairs, generate_connect_spans-Pairs}

-- A span with its service and its span identifier.
record TestSpan : Type 0 where
  service : String
  id : ℕ
  is_internal : Bool

abbrev test_api : SpanApi TestSpan
test_api = record {
  internal_signal = λ s. s.is_internal;
  discarded = λ s. false;
  uid = λ s. s.service;
  trace_id = λ s. 0;
  span_id = λ s. s.id;
  parent_span_id = λ s. 0;
  trace_name = λ s. s.service;
  kind = λ s. 1;
  status_code = λ s. 0;
  status_message = λ s. "";
  request_start = λ s. 5;
  start = λ s. 4;
  end = λ s. 9;
}

abbrev test_getters : List (TestSpan → String)
test_getters = (λ s. s.service) ∷ (λ s. "external") ∷ []

abbrev test_spans : List TestSpan
test_spans =
    record { service = "cart"; id = 3; is_internal = false }
    ∷ record { service = "db"; id = 4; is_internal = false }
    ∷ record { service = "cart"; id = 0; is_internal = false }
    ∷ record { service = "cart"; id = 6; is_internal = true }
    ∷ []

abbrev counting : IdGenerator
counting = record { random_span_id = λ n. suc n; random_trace_id = λ n. suc n }

lookup-group_connection_spans_example :
    lookup "cart" (group_connection_spans test_api test_getters test_spans)
    ≡ non_empty test_api test_getters (spans_of test_api test_getters "cart" test_spans)
lookup-group_connection_spans_example =
    lookup-group_connection_spans test_api test_getters test_spans "cart"

abbrev cart_group : List (SpanAndAttributes TestSpan String)
cart_group = spans_of test_api test_getters "cart" test_spans

generate_connect_spans-Pairs_example :
    Pairs test_api counting cart_group (generate_connect_spans test_api counting cart_group)
generate_connect_spans-Pairs_example =
    generate_connect_spans-Pairs test_api counting (λ n. ground arith) (λ n. ground arith)
      cart_group
