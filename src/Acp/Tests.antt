-- ===== src/Acp/Tests.antt =====
-- A stream and the dispatcher of internal/acp at concrete sequences of steps.
use otto_gateway.Base.{
  ℕ, ◌+◌, ◌≤◌, ◌≡◌, refl, String, true, false, Option, none, some, List, [], ◌∷◌, ◌++◌, arith,
  length, sum_of, Each, str_eq, if◌then◌else◌,
}
use otto_gateway.Anthropic.Stream.{end_turn, unknown}
use otto_gateway.Acp.Stream.{
  Stream, StreamEvent, capacity, begins_push, sends, counts, wakes, merges_result, finishes_close,
  receives, new_stream, stream_run,
}
use otto_gateway.Acp.Delivery.{
  closed_run, outcome_of, chunks_intact, result_final, result_unsettled,
}
use otto_gateway.Acp.Closes.{own_steps, close_ends}
use otto_gateway.Acp.Dispatcher.{
  RpcFrame, CallEvent, requests, routes, new_dispatcher, call_run, take_frame, drain_all,
}
use otto_gateway.Acp.Pending.{is_for, is_it}
use otto_gateway.Acp.Answered.{Own, OwnAt}
use otto_gateway.Acp.Replies.{send_finds_room, drained_answers}

-- Two chunks come, the first is sent and counted, and a close starts.
abbrev two_chunks : List (StreamEvent ℕ)
two_chunks = begins_push 5 ∷ begins_push 6 ∷ sends 0 ∷ counts ∷ []

-- The second push wakes, and the close has the lock.
abbrev lock_won : List (StreamEvent ℕ)
lock_won = wakes 0 ∷ merges_result ∷ finishes_close ∷ []

abbrev closed_stream : Stream ℕ
closed_stream = closed_run "s1" two_chunks (some end_turn) none lock_won

abbrev streamed : Stream ℕ
streamed = stream_run (new_stream "s1") two_chunks

chunks_intact_example :
    (streamed.panicked ≡ false)
    × (streamed.received ++ streamed.buffer ≡ streamed.accepted)
    × (length streamed.buffer ≤ capacity)
    × (streamed.result.chunk_count + streamed.uncounted ≡ length streamed.accepted)
chunks_intact_example = chunks_intact "s1" two_chunks

result_final_example :
    outcome_of (stream_run closed_stream (receives ∷ counts ∷ []))
    ≡ some (end_turn, none, length (stream_run closed_stream (receives ∷ counts ∷ [])).accepted)
unfolding stream_run new_stream
result_final_example =
    result_final "s1" two_chunks lock_won (receives ∷ counts ∷ []) (some end_turn) none refl refl

abbrev waiting_stream : Stream ℕ
waiting_stream = closed_run "s1" two_chunks (some end_turn) (some "lost") []

result_unsettled_example :
    outcome_of waiting_stream ≡ some (unknown, none, waiting_stream.result.chunk_count)
unfolding stream_run new_stream
result_unsettled_example =
    result_unsettled "s1" two_chunks [] (some end_turn) (some "lost") refl refl

close_ends_example : (stream_run waiting_stream (own_steps waiting_stream)).chan_closed ≡ true
unfolding stream_run new_stream
close_ends_example = close_ends "s1" two_chunks [] (some end_turn) (some "lost") refl refl

abbrev parse_one : String → Option ℕ
parse_one s = if str_eq s "1" then some 1 else none

abbrev first_answer : RpcFrame
first_answer = record { id = "1"; method = ""; result = "{}"; error = none; params = "" }

-- Two requests, and the first is answered.
abbrev two_requests : List CallEvent
two_requests = requests ∷ requests ∷ routes first_answer ∷ []

send_finds_room_example :
    (length ((call_run parse_one new_dispatcher two_requests).boxes 0) ≡ 0)
    × (sum_of (is_for 0) (call_run parse_one new_dispatcher two_requests).taken ≡ 0)
    × Own parse_one 0 first_answer
unfolding call_run take_frame
send_finds_room_example =
    send_finds_room parse_one two_requests 0 0 first_answer [] (omega arith) refl

drained_answers_example :
    ((drain_all "closed" (call_run parse_one new_dispatcher two_requests)).pending ≡ [])
    × (sum_of
            (is_for 1)
            (drain_all "closed" (call_run parse_one new_dispatcher two_requests)).in_flight
          + length ((drain_all "closed" (call_run parse_one new_dispatcher two_requests)).boxes 1)
          + sum_of
              (is_for 1)
              (drain_all "closed" (call_run parse_one new_dispatcher two_requests)).taken
          + sum_of
              (is_it 1)
              (drain_all "closed" (call_run parse_one new_dispatcher two_requests)).dropped
        ≡ 1)
    × Each
        (OwnAt parse_one)
        (drain_all "closed" (call_run parse_one new_dispatcher two_requests)).taken
unfolding call_run
drained_answers_example =
    drained_answers parse_one two_requests "closed" 1 (omega arith) (omega arith)
