-- ===== src/Connect/Spans.antt =====
-- `GroupConnectionSpans`, `processSpans`, `GenerateConnectSpans` and `spanStartTime` of
-- pkg/export/otel/connect_spans.go.
pub mod Groups
pub mod Traces
pub mod Sending
use e_bpf_lens.Prelude.{
  ℕ, suc, String, Bool, not, ◌||◌, Option, none, some, List, [], ◌∷◌, ◌++◌, Map, lookup, insert,
  if◌then◌else◌, or_else, ltb, eqb, is_empty, map,
}

-- What the code asks of a span of go.opentelemetry.io/obi. An identifier is the number that its bytes
-- spell: zero is the empty one. The service's UID is only compared.
pub record SpanApi (Span : Type 0) : Type 0 where
  pub internal_signal : Span → Bool
  pub discarded : Span → Bool
  pub uid : Span → String
  pub trace_id : Span → ℕ
  pub span_id : Span → ℕ
  pub parent_span_id : Span → ℕ
  pub trace_name : Span → String
  pub kind : Span → ℕ
  pub status_code : Span → ℕ
  pub status_message : Span → String
  pub request_start : Span → ℕ
  pub start : Span → ℕ
  pub end : Span → ℕ

-- `tracesgen.TraceSpanAndAttributes`
pub record SpanAndAttributes (Span Attr : Type 0) : Type 0 where
  pub span : Span
  pub attributes : List Attr

-- A span of the traces that are sent.
pub record OutSpan (Attr : Type 0) : Type 0 where
  pub name : String
  pub kind : ℕ
  pub start_timestamp : ℕ
  end_timestamp : ℕ
  pub span_id : ℕ
  pub trace_id : ℕ
  pub parent_span_id : Option ℕ
  pub attributes : List Attr
  pub status_code : ℕ
  pub status_message : Option String

-- `idgen`: the n-th identifiers that it draws.
pub record IdGenerator : Type 0 where
  pub random_span_id : ℕ → ℕ
  pub random_trace_id : ℕ → ℕ

module _ {Span : Type 0} (api : SpanApi Span) where
  abbrev pub skipped : Span → Bool
  skipped span = api.internal_signal span || api.discarded span

  pub span_start_time : Span → ℕ
  span_start_time span =
      if ltb (api.start span) (api.request_start span)
      then api.start span
      else api.request_start span

  abbrev trace_id_or : ℕ → Span → ℕ
  trace_id_or drawn span = if eqb (api.trace_id span) 0 then drawn else api.trace_id span

  abbrev span_id_or : ℕ → Span → ℕ
  span_id_or drawn span = if not (eqb (api.span_id span) 0) then api.span_id span else drawn

module _ {Span Attr : Type 0} (api : SpanApi Span) where
  -- `for _, getter := range attributeProvider { attrs = append(attrs, getter(span)) }`
  pub attributes_of : List (Span → Attr) → Span → List Attr
  attributes_of [] span = []
  attributes_of (getter ∷ getters) span = getter span ∷ attributes_of getters span

  -- `spanGroups[uid] = append(spanGroups[uid], …)`
  pub add_to_group :
      List (Span → Attr)
      → Span
      → Map (List (SpanAndAttributes Span Attr))
      → Map (List (SpanAndAttributes Span Attr))
  unfolding attributes_of
  add_to_group getters span groups =
      let group = or_else (lookup (api.uid span) groups) [] in
      insert (api.uid span)
        (group ++ record { span = span; attributes = attributes_of getters span } ∷ []) groups

  pub group_loop :
      List (Span → Attr)
      → List Span
      → Map (List (SpanAndAttributes Span Attr))
      → Map (List (SpanAndAttributes Span Attr))
  unfolding add_to_group
  group_loop getters [] groups = groups
  group_loop getters (span ∷ spans) groups =
      group_loop getters spans
        (if skipped api span then groups else add_to_group getters span groups)

  pub group_connection_spans :
      List (Span → Attr) → List Span → Map (List (SpanAndAttributes Span Attr))
  unfolding group_loop
  group_connection_spans getters spans = group_loop getters spans []

  -- The body of the loop of `GenerateConnectSpans`, for the n-th span.
  pub out_span : IdGenerator → ℕ → SpanAndAttributes Span Attr → OutSpan Attr
  unfolding span_start_time
  out_span ids n s =
      let span = s.span in
      let parent = api.parent_span_id span in
      let message = api.status_message span in
      record {
        name = api.trace_name span;
        kind = api.kind span;
        start_timestamp = span_start_time api span;
        end_timestamp = api.end span;
        span_id = span_id_or api (ids.random_span_id n) span;
        trace_id = trace_id_or api (ids.random_trace_id n) span;
        parent_span_id = if not (eqb parent 0) then some parent else none;
        attributes = s.attributes;
        status_code = api.status_code span;
        status_message = if is_empty message then none else some message;
      }

  pub out_spans : IdGenerator → ℕ → List (SpanAndAttributes Span Attr) → List (OutSpan Attr)
  unfolding out_span
  out_spans ids n [] = []
  out_spans ids n (s ∷ ss) = out_span ids n s ∷ out_spans ids (suc n) ss

  -- `GenerateConnectSpans`, the spans without the resource.
  pub generate_connect_spans :
      IdGenerator → List (SpanAndAttributes Span Attr) → List (OutSpan Attr)
  unfolding out_spans
  generate_connect_spans ids spans = out_spans ids 0 spans

  -- The attributes of the first span of a group are written anew.
  refresh_sample :
      List (Span → Attr) → List (SpanAndAttributes Span Attr) → List (SpanAndAttributes Span Attr)
  refresh_sample getters [] = []
  refresh_sample getters (sample ∷ rest) =
      record sample { attributes = attributes_of getters sample.span } ∷ rest

  abbrev send_one :
      IdGenerator
      → List (Span → Attr)
      → List (SpanAndAttributes Span Attr)
      → List (List (OutSpan Attr))
  send_one ids getters [] = []
  send_one ids getters (sample ∷ rest) =
      generate_connect_spans ids (refresh_sample getters (sample ∷ rest)) ∷ []

  send_groups :
      (String → IdGenerator)
      → List (Span → Attr)
      → Map (List (SpanAndAttributes Span Attr))
      → List (List (OutSpan Attr))
  unfolding refresh_sample
  send_groups ids getters [] = []
  send_groups ids getters ((uid, group) ∷ groups) =
      send_one (ids uid) getters group ++ send_groups ids getters groups

  -- `processSpans`: what is handed to `ConsumeTraces`, group by group. Each group has the identifiers
  -- that are drawn for it.
  pub process_spans :
      (String → IdGenerator) → List (Span → Attr) → List Span → List (List (OutSpan Attr))
  unfolding send_groups group_connection_spans
  process_spans ids getters spans = send_groups ids getters (group_connection_spans getters spans)
