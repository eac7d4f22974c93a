-- ===== src/Interceptor/Samples.antt =====
-- The theorems on the counters and on the wrappers applied to a few calls.
use Prim.Native.Char.{Char}
use lunaship.Base.{
  ℕ, suc, ◌≤◌, String, true, false, none, some, List, [], ◌∷◌, ◌++◌, ◌≡◌, refl, All, length,
  if◌then◌else◌, ok,
}
use lunaship.ModuleApi.Graph.{update}
use lunaship.Log.Context.{is_sampled}
use lunaship.Telemetry.{GoContext, SpanContext, LogLine, Otel, EndedSpan}
use lunaship.Kafka.Headers.{RecordHeader}
use lunaship.Interceptor.{Request, Process}
use lunaship.Interceptor.Counter.{Entry, printed_counters, unprinted_counters, printed-least}
use lunaship.Interceptor.Counter.Concurrent.{
  Counters, no_calls, Counts, Reach-Counts, here, next, load_missing, store, load_stored, add,
}
use lunaship.Interceptor.Calls.{Around, start_server_span, error_of, service_name_from_env}
use lunaship.Interceptor.Calls.Stack.{
  counted_code, error_lines, failures, Method, served, own_answer, served-own_answer,
}

abbrev calls : List Entry
calls = ("/a", 7) ∷ ("/b", 1) ∷ ("/c", 3) ∷ []

-- Of three counters two are printed, and the largest one is left out.
printed-least_example :
    All (λ e. All (λ d. e.1 ≤ d.1) (unprinted_counters 2 calls)) (printed_counters 2 calls)
printed-least_example = printed-least 2 calls

-- Two calls find no counter; one stores its own, the other adds to it.
abbrev one_missing : Counters
one_missing = record no_calls { creating = update no_calls.creating "/a" 1 }

abbrev both_missing : Counters
both_missing = record one_missing { creating = update one_missing.creating "/a" 2 }

abbrev one_stored : Counters
one_stored = record both_missing {
  value = update both_missing.value "/a" (some 1);
  creating = update both_missing.creating "/a" 1;
  finished = update both_missing.finished "/a" 1;
}

abbrev other_loaded : Counters
other_loaded = record one_stored {
  creating = update one_stored.creating "/a" 0;
  adding = update one_stored.adding "/a" 1;
}

abbrev both_counted : Counters
both_counted = record other_loaded {
  value = update other_loaded.value "/a" (some 2);
  adding = update other_loaded.adding "/a" 0;
  finished = update other_loaded.finished "/a" 2;
}

Reach-Counts_example : Counts both_counted
Reach-Counts_example =
    Reach-Counts {c = no_calls} {d = both_counted} (λ key. refl)
      (next {d = other_loaded}
        (next {d = one_stored}
          (next {d = both_missing}
            (next {d = one_missing} (next here (load_missing "/a" refl)) (load_missing "/a" refl))
            (store "/a" 1 refl refl))
          (load_stored "/a" 0 1 refl refl))
        (add "/a" 0 1 refl refl))

abbrev same_char : Char → Char
same_char c = c

abbrev new_span : SpanContext
new_span = record { is_valid = true; trace_id = "t1"; span_id = "s2"; sampled = true }

abbrev tracer : Otel (List RecordHeader)
tracer = record {
  extract = λ ctx hs. ctx;
  injected = λ ctx. ("traceparent", ctx.span.span_id) ∷ [];
  start = λ name span ctx. new_span;
}

abbrev around : Around ℕ String String
around = record {
  fold = same_char;
  otel = tracer;
  env = λ name. "";
  app = "shop";
  code_of = λ e. elim e [ none ↦ "unknown" | some text ↦ text ];
  error_text = λ e. e;
  shown_request = λ r. r.procedure;
  shown_response = λ r. "";
  now = λ p. 5;
}

-- The method counts its calls, which succeed.
abbrev placing : Method ℕ String String
placing ctx req n = (ok "placed", suc n)

abbrev context : GoContext
context = record {
  logged = record {
    fields = [];
    trace_id = none;
    span_id = none;
    parent_span_id = none;
    sampled = none;
  };
  span = record { is_valid = false; trace_id = ""; span_id = ""; sampled = false };
}

abbrev request : Request
request = record {
  procedure = "/shop.Orders/Place";
  peer_addr = "10.0.0.1:9000";
  peer_protocol = "connect";
  http_method = "POST";
  headers = [];
}

abbrev process : Process ℕ String
process = record { app = 4; lines = []; spans = []; metrics = [] }

served-own_answer_example :
    ((served around placing context request process).0
      ≡ (own_answer around placing context request process).0)
    × ((served around placing context request process).1.app
        ≡ (own_answer around placing context request process).1)
    × ((served around placing context request process).1.metrics
        ≡ process.metrics
          ++ (service_name_from_env around.env
              ∷ request.procedure
              ∷ counted_code around placing (own_answer around placing context request process).0
              ∷ [])
            ∷ [])
    × ((span : EndedSpan String) × ((served around placing context request process).1.spans
          ≡ process.spans ++ span ∷ [])
        × (span.name ≡ request.procedure)
        × (span.error ≡ error_of (own_answer around placing context request process).0))
    × ((lines : List LogLine) × ((served around placing context request process).1.lines
          ≡ process.lines ++ lines)
        × (error_lines lines
            ≡ failures (error_of (own_answer around placing context request process).0))
        × (length lines ≡ (
            if is_sampled (some (start_server_span around context request).logged)
            then 2
            else failures (error_of (own_answer around placing context request process).0))))
served-own_answer_example = served-own_answer around placing context request process refl
