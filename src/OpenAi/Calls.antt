-- ===== src/OpenAi/Calls.antt =====
-- The tool calls that internal/adapter/openai/sse.go writes, read by the client of the protocol.
use mathlib.Core.List.{append_assoc, append-nil}
use otto_gateway.Base.{
  length-append, map, sym, ap, ◌∙◌, ℕ, zero, suc, ◌≡◌, refl, String, true, Option, some, List, [],
  ◌∷◌, ◌++◌, length, inl, inr, arith, Option-cases, if-Holds, subst, ◌>>◌, Post, then-Post,
  is_blank,
}
use otto_gateway.Engine.ToolCalls.{ToolCall, collapse, merge_by_id, supply_at, dedup_tool_calls}
use otto_gateway.Pool.State.{lookup, assign}
use otto_gateway.Catalog.Models.{contains}
use otto_gateway.OpenAi.Frames.{
  call_header, call_arguments, finish, ReadCall, Client, speaking, in_call, called, finished,
  accept,
}
use otto_gateway.OpenAi.Emitter.{
  ChatRequest, SseEmitter, has_any, json_or_empty, write_data, emit_tool_call_frames,
}
use otto_gateway.OpenAi.Legal.{At, Broken, write_data-Post}

-- Where the client is after some calls.
abbrev after_calls : List ReadCall → Client
after_calls [] = speaking
after_calls (c ∷ cs) = called (c ∷ cs)

after-snoc :
    (cs : List ReadCall) (c : ReadCall) → called (cs ++ (c ∷ [])) ≡ after_calls (cs ++ (c ∷ []))
after-snoc [] c = refl
after-snoc (d ∷ cs) c = refl

accept-header :
    (cs : List ReadCall) (i : ℕ) (id name : String)
    → i ≡ length cs
    → accept (after_calls cs) (call_header i id name) ≡ some (in_call cs id name)
unfolding accept
accept-header [] i id name h = ground arith
accept-header (c ∷ cs) i id name h = ground arith

module _ {J : Type 0} where
  supply_at-some :
      (xs : List (ToolCall J)) (i : ℕ) (c : ToolCall J)
      → has_any xs ≡ true
      → has_any (supply_at xs i c) ≡ true
  unfolding supply_at
  supply_at-some [] i c h = h
  supply_at-some (x ∷ xs) zero c h = refl
  supply_at-some (x ∷ xs) (suc i) c h = refl

  append-some : (xs : List (ToolCall J)) (c : ToolCall J) → has_any (xs ++ (c ∷ [])) ≡ true
  append-some [] c = refl
  append-some (x ∷ xs) c = refl

  merge_by_id-some :
      (ids : List (String × ℕ)) (merged cs : List (ToolCall J))
      → has_any merged ≡ true
      → has_any (merge_by_id ids merged cs) ≡ true
  unfolding merge_by_id
  merge_by_id-some ids merged [] h = h
  merge_by_id-some ids merged (c ∷ cs) h =
      let appended = merge_by_id-some ids (merged ++ (c ∷ [])) cs (append-some merged c) in
      elim (Option-cases (lookup c.id ids)) [
        | inl e ↦
            let assigned =
              merge_by_id-some (assign c.id (length merged) ids) (merged ++ (c ∷ [])) cs
                (append-some merged c) in
            ground arith
        | inr (i, e) ↦
            let supplied =
              merge_by_id-some ids (supply_at merged i c) cs (supply_at-some merged i c h) in
            ground arith
      ]

  merged_some :
      (c : ToolCall J) (cs : List (ToolCall J)) → has_any (merge_by_id [] [] (c ∷ cs)) ≡ true
  unfolding merge_by_id lookup
  merged_some c cs =
      if-Holds (λ (l : List (ToolCall J)). has_any l ≡ true) (is_blank c.id) _ _
        (λ e. merge_by_id-some [] (c ∷ []) cs refl)
        (λ e. merge_by_id-some (assign c.id 0 []) (c ∷ []) cs refl)

  collapse-some :
      (marshal : List (String × J) → Option String) (cs : List (ToolCall J))
      → has_any cs ≡ true
      → has_any (collapse marshal [] cs) ≡ true
  unfolding collapse contains
  collapse-some marshal [] h = h
  collapse-some marshal (c ∷ cs) h = refl

  -- The collapse of some calls leaves some.
  pub dedup-some :
      (marshal : List (String × J) → Option String) (cs : List (ToolCall J))
      → has_any cs ≡ true
      → has_any (dedup_tool_calls marshal cs) ≡ true
  unfolding dedup_tool_calls
  dedup-some marshal [] h = ground arith
  dedup-some marshal (c ∷ cs) h =
      collapse-some marshal (merge_by_id [] [] (c ∷ cs)) (merged_some c cs)

  -- A call as it is written.
  abbrev pub written_call : ChatRequest J → ToolCall J → ReadCall
  written_call v c = record {
    id = c.id;
    name = c.name;
    arguments = json_or_empty (v.marshal c.arguments);
  }

  abbrev pub written_calls : ChatRequest J → List (ToolCall J) → List ReadCall
  written_calls v = map (written_call v)

  -- After some calls, with the reports of an earlier state.
  record Calls (done : List ReadCall) (e₀ e : SseEmitter J) : Type 0 where
    at : At e (after_calls done)
    calls : e.synthetic_calls ≡ e₀.synthetic_calls
    stop : e.stop ≡ e₀.stop

  emit_tool_call_frames-Post :
      (v : ChatRequest J) (i : ℕ) (done all : List ReadCall) (cs : List (ToolCall J))
      (e₀ e : SseEmitter J)
      → i ≡ length done
      → done ++ written_calls v cs ≡ all
      → Calls done e₀ e
      → Post Broken (Calls all e₀) (emit_tool_call_frames v i cs e)
  unfolding emit_tool_call_frames
  emit_tool_call_frames-Post v i done all [] e₀ e n h k =
      subst (λ l. Calls l e₀ e) (sym (append-nil done) ∙ h) k
  emit_tool_call_frames-Post v i done all (c ∷ cs) e₀ e n h k =
      let w = written_call v c in
      let args = call_arguments i w.arguments in
      let now = done ++ (w ∷ []) in
      let Inside : SseEmitter J → Type 0 = λ e'.
        At e' (in_call done c.id c.name)
        × (e'.synthetic_calls ≡ e₀.synthetic_calls)
        × (e'.stop ≡ e₀.stop) in
      then-Post Broken (Calls now e₀) (Calls all e₀)
        (write_data (call_header i c.id c.name) >> write_data args)
        (emit_tool_call_frames v (suc i) cs) e
        (then-Post Broken Inside (Calls now e₀) (write_data (call_header i c.id c.name))
          (write_data args) e
          (write_data-Post Inside e (call_header i c.id c.name) (after_calls done)
            (in_call done c.id c.name) k.at (accept-header done i c.id c.name n)
            (λ left at. (at, k.calls, k.stop)))
          (λ e' (at, calls, stop).
            write_data-Post (Calls now e₀) e' args (in_call done c.id c.name) (called now) at
              (unfold accept in ground arith)
              (λ left at'. record {
                at = at' ∙ ap some (after-snoc done w);
                calls = calls;
                stop = stop;
              })))
        (λ e' k'.
          emit_tool_call_frames-Post v (suc i) now all cs e₀ e'
            (omega (arith, n, length-append done (w ∷ [])))
            (append_assoc done (w ∷ []) (written_calls v cs) ∙ h) k')

  -- The finish reason is out after some calls, with the reports of an earlier state.
  abbrev pub CallsOut : List ReadCall → SseEmitter J → SseEmitter J → Type 0
  CallsOut read e₀ e =
      At e (finished "tool_calls" read)
      × (e.synthetic_calls ≡ e₀.synthetic_calls)
      × (e.stop ≡ e₀.stop)

  -- The frames of some calls, and the reason "tool_calls".
  pub calls_finished :
      (v : ChatRequest J) (calls : List (ToolCall J)) (e : SseEmitter J)
      → has_any calls ≡ true
      → At e speaking
      → Post Broken
          (CallsOut (written_calls v calls) e)
          ((emit_tool_call_frames v 0 calls >> write_data (finish "tool_calls")) e)
  calls_finished v [] e h at = absurd (ground arith)
  calls_finished v (c ∷ cs) e h at =
      let read = written_calls v (c ∷ cs) in
      then-Post Broken (Calls read e) (CallsOut read e) (emit_tool_call_frames v 0 (c ∷ cs))
        (write_data (finish "tool_calls")) e
        (emit_tool_call_frames-Post v 0 [] read (c ∷ cs) e e refl refl
          (record { at = at; calls = refl; stop = refl }))
        (λ e' k.
          write_data-Post (CallsOut read e) e' (finish "tool_calls") (called read)
            (finished "tool_calls" read) k.at (unfold accept in refl)
            (λ left at'. (at', k.calls, k.stop)))
