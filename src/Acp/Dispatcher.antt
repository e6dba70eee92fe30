-- ===== src/Acp/Dispatcher.antt =====
-- `dispatcher` of internal/acp/dispatcher.go, with the goroutines that share it: callers that register
-- a request and wait, the loop that routes the worker's frames, and those that drain. `parse_id`
-- stands for json.Unmarshal of an id into a uint64.
use otto_gateway.Base.{
  ℕ, zero, suc, String, Bool, true, false, not, ◌&&◌, Option, none, some, List, [], ◌∷◌, ◌++◌, ◌==◌,
  str_eq, u64, if◌then◌else◌,
}

-- `negsuc n` is -(n + 1).
pub data ℤ : Type 0 where
  pos negsuc : ℕ → ℤ

pub record RpcError : Type 0 where
  pub code : ℤ
  pub message : String

-- A raw JSON value is its text, "" where it is absent.
pub record RpcFrame : Type 0 where
  pub id : String
  pub method : String
  pub result : String
  pub error : Option RpcError
  pub params : String

unfoldable pub has_id : RpcFrame → Bool
has_id f = not (str_eq f.id "") && not (str_eq f.id "null")

abbrev pub close_sentinel_code : ℤ
close_sentinel_code = negsuc 32098

abbrev pub sentinel : String → RpcFrame
sentinel message = record {
  id = "";
  method = "";
  result = "";
  error = some (record { code = close_sentinel_code; message = message });
  params = "";
}

-- A channel is known by its number.
pub record Dispatcher : Type 0 where
  pub pending : List (ℕ × ℕ)
  -- what the channels hold; each has room for one frame
  pub boxes : ℕ → List RpcFrame
  pub next_channel : ℕ
  -- the counter `nextID` of the client
  pub next_id : ℕ
  -- calls of route that have looked their channel up and not yet sent
  pub in_flight : List (ℕ × RpcFrame)
  -- the frames that `onNotif` was called with
  pub notified : List RpcFrame
  -- the channels that cancel removed, and what the callers received
  pub dropped : List ℕ
  pub taken : List (ℕ × RpcFrame)

abbrev pub new_dispatcher : Dispatcher
new_dispatcher = record {
  pending = [];
  boxes = λ c. [];
  next_channel = 0;
  next_id = 0;
  in_flight = [];
  notified = [];
  dropped = [];
  taken = [];
}

unfoldable pub find_pending : ℕ → List (ℕ × ℕ) → Option ℕ
find_pending id [] = none
find_pending id ((k, c) ∷ p) = elim (k == id) [ true ↦ some c | false ↦ find_pending id p ]

unfoldable pub delete_pending : ℕ → List (ℕ × ℕ) → List (ℕ × ℕ)
delete_pending id [] = []
delete_pending id ((k, c) ∷ p) =
    let rest = delete_pending id p in if k == id then rest else (k, c) ∷ rest

abbrev pub fill : ℕ → List RpcFrame → (ℕ → List RpcFrame) → ℕ → List RpcFrame
fill c fs boxes = λ k. if k == c then fs else boxes k

-- A new channel for the request, stored under its id.
unfoldable pub register : ℕ → Dispatcher → Dispatcher
unfolding delete_pending
register id d = record d {
  pending = (id, d.next_channel) ∷ delete_pending id d.pending;
  next_channel = suc d.next_channel;
}

-- A caller draws an id and registers it.
unfoldable pub make_request : Dispatcher → Dispatcher
unfolding register
make_request d = let id = u64 (suc d.next_id) in register id (record d { next_id = id })

unfoldable pub cancel_request : ℕ → Dispatcher → Dispatcher
unfolding find_pending delete_pending
cancel_request id d = elim (find_pending id d.pending) [
  | none ↦ d
  | some c ↦ record d { pending = delete_pending id d.pending; dropped = c ∷ d.dropped }
]

-- The critical section of route: the lookup and the removal of a response's channel.
unfoldable pub take_pending : ℕ → RpcFrame → Dispatcher → Dispatcher
unfolding find_pending delete_pending
take_pending id f d = elim (find_pending id d.pending) [
  | none ↦ d
  | some c ↦ record d { pending = delete_pending id d.pending; in_flight = (c, f) ∷ d.in_flight }
]

module _ (parse_id : String → Option ℕ) where
  -- route, up to its send.
  unfoldable pub route : RpcFrame → Dispatcher → Dispatcher
  unfolding take_pending has_id
  route f d =
      if not (str_eq f.method "")
      then record d { notified = d.notified ++ (f ∷ []) }
      else if not (has_id f)
      then d
      else elim (parse_id f.id) [ none ↦ d | some id ↦ take_pending id f d ]

-- The frame at an index, and the others.
unfoldable pub take_frame : List (ℕ × RpcFrame) → ℕ → Option ((ℕ × RpcFrame) × List (ℕ × RpcFrame))
take_frame [] i = none
take_frame (x ∷ xs) zero = some (x, xs)
take_frame (x ∷ xs) (suc i) = elim (take_frame xs i) [
  | none ↦ none
  | some (y, ys) ↦ some (y, x ∷ ys)
]

-- The send of route, which waits while the channel is full.
unfoldable pub send_frame : ℕ → Dispatcher → Dispatcher
unfolding take_frame
send_frame i d = elim (take_frame d.in_flight i) [
  | none ↦ d
  | some ((c, f), others) ↦ elim (d.boxes c) [
    | [] ↦ record d { boxes = fill c (f ∷ []) d.boxes; in_flight = others }
    | g ∷ gs ↦ d
  ]
]

-- The caller of a request receives from its channel.
unfoldable pub take_response : ℕ → Dispatcher → Dispatcher
take_response c d = elim (d.boxes c) [
  | [] ↦ d
  | f ∷ fs ↦ record d { boxes = fill c fs d.boxes; taken = (c, f) ∷ d.taken }
]

-- The loop of drainAll over the map: a channel that is full is passed over.
unfoldable pub drain_each : String → List (ℕ × ℕ) → (ℕ → List RpcFrame) → ℕ → List RpcFrame
drain_each message [] boxes = boxes
drain_each message ((id, c) ∷ p) boxes =
    drain_each message p
      (elim (boxes c) [ [] ↦ fill c (sentinel message ∷ []) boxes | f ∷ fs ↦ boxes ])

unfoldable pub drain_all : String → Dispatcher → Dispatcher
unfolding drain_each
drain_all message d = record d { pending = []; boxes = drain_each message d.pending d.boxes }

pub data CallEvent : Type 0 where
  requests : CallEvent
  cancels sends takes : ℕ → CallEvent
  routes : RpcFrame → CallEvent
  drains : String → CallEvent

module _ (parse_id : String → Option ℕ) where
  unfoldable pub call_step : Dispatcher → CallEvent → Dispatcher
  unfolding make_request cancel_request route send_frame take_response drain_all
  call_step d requests = make_request d
  call_step d (cancels id) = cancel_request id d
  call_step d (routes f) = route parse_id f d
  call_step d (sends i) = send_frame i d
  call_step d (takes c) = take_response c d
  call_step d (drains message) = drain_all message d

  unfoldable pub call_run : Dispatcher → List CallEvent → Dispatcher
  unfolding call_step
  call_run d [] = d
  call_run d (e ∷ es) = call_run (call_step d e) es
