-- ===== src/Plugin/Processes.antt =====
-- `PluginProcess` (crates/labrys-core/src/plugin.rs). A handler's value is of any type.
use labrys.Base.{
  ℕ, ◌+◌, ◌%◌, ◌^◌, ◌==◌, max, Bool, true, false, not, Option, none, some, List, [], ◌∷◌, ◌++◌,
  Text, text, any, push, ltb, Result, ok, err, panic, plugin, Method, gets, modify, lift, ◌>>=◌,
  if◌then◌else◌,
}
use labrys.Plugin.Handshakes.{
  PluginManifest, Handshake, negotiate, RpcErrorCode, method_not_found, internal_error, unavailable,
  version_mismatch, from_core_error, answers,
}

pub data PluginState : Type 0 where
  active refused lost stopped : PluginState  -- `lost` is the source's `Unavailable`

abbrev pub is_active : PluginState → Bool
is_active active = true
is_active _ = false

abbrev pub is_refused : PluginState → Bool
is_refused refused = true
is_refused _ = false

-- Calls in flight by their number, in its order (`BTreeMap<u64, String>`).
abbrev pub Flights : Type 0
Flights = List (ℕ × Text)

unfoldable pub insert_flight : ℕ → Text → Flights → Flights
insert_flight id method [] = (id, method) ∷ []
insert_flight id method ((j, m) ∷ fs) =
    let rest = insert_flight id method fs in
    if id == j
    then (id, method) ∷ fs
    else if ltb id j
    then (id, method) ∷ (j, m) ∷ fs
    else (j, m) ∷ rest

unfoldable pub remove_flight : ℕ → Flights → Flights
remove_flight id [] = []
remove_flight id ((j, m) ∷ fs) =
    let rest = remove_flight id fs in if id == j then fs else (j, m) ∷ rest

unfoldable pub flight : ℕ → Flights → Option Text
flight id [] = none
flight id ((j, m) ∷ fs) = let rest = flight id fs in if id == j then some m else rest

pub record PluginProcess : Type 0 where
  pub manifest : PluginManifest
  pub state : PluginState
  pub handshake : Option Handshake
  pub refusal : Option RpcErrorCode
  pub next_call_id : ℕ  -- u64
  pub in_flight : Flights
  pub cancelled_calls : List ℕ  -- the field `cancelled`
  pub calls : List (Text × ℕ)

abbrev pub started :
    PluginManifest → PluginState → Option Handshake → Option RpcErrorCode → PluginProcess
started manifest state handshake refusal = record {
  manifest = manifest;
  state = state;
  handshake = handshake;
  refusal = refusal;
  next_call_id = 1;
  in_flight = [];
  cancelled_calls = [];
  calls = [];
}

-- `negotiate` does not panic.
abbrev pub connected : PluginManifest → Result Handshake → PluginProcess
connected m (ok handshake) = started m active (some handshake) none
connected m (err e) = started m refused none (some (from_core_error e))
connected m panic = started m refused none none

unfoldable pub connect : PluginManifest → PluginProcess
unfolding negotiate from_core_error
connect m = connected m (negotiate m)

unfoldable pub mark_unavailable : PluginProcess → PluginProcess
mark_unavailable p = if is_active p.state then record p { state = lost; in_flight = [] } else p

unfoldable pub shutdown : PluginProcess → PluginProcess
shutdown p = if is_refused p.state then p else record p { state = stopped; in_flight = [] }

unfoldable pub unavailable_code : PluginState → RpcErrorCode
unavailable_code lost = unavailable
unavailable_code refused = version_mismatch
unavailable_code stopped = unavailable
unavailable_code active = internal_error

pub record RpcResponse (V : Type 0) : Type 0 where
  pub id : ℕ
  pub result : Option V
  pub error : Option RpcErrorCode

module _ {V : Type 0} where
  unfoldable pub response_ok : ℕ → V → RpcResponse V
  response_ok id result = record { id = id; result = some result; error = none }

  unfoldable pub response_err : ℕ → RpcErrorCode → RpcResponse V
  response_err id code = record { id = id; result = none; error = some code }

  -- A panic of the handler is not caught; the handlers are taken to give a value or an error.
  abbrev pub answered : ℕ → Result V → RpcResponse V
  answered id (ok v) = response_ok id v
  answered id (err e) = response_err id (from_core_error e)
  answered id panic = response_err id internal_error

  -- `invoke`, with the process that it leaves.
  unfoldable pub invoke :
      Text → V → (Text → V → Result V) → PluginProcess → RpcResponse V × PluginProcess
  unfolding response_ok response_err from_core_error insert_flight remove_flight unavailable_code
  invoke method params handler p =
      let id = p.next_call_id in
      let counted : PluginProcess = record p { next_call_id = (id + 1) % 2 ^ 64 } in
      if not (is_active p.state)
      then (response_err id (unavailable_code p.state), p)
      else if not (answers p.manifest.methods method)
      then (response_err id method_not_found, counted)
      else (
        answered id (handler method params),
        record counted {
          in_flight = remove_flight id (insert_flight id method p.in_flight);
          calls = push p.calls (method, id);
        },
      )

  unfoldable pub cancelled_response : ℕ → PluginProcess → Option (RpcResponse V)
  unfolding response_err
  cancelled_response id p =
      if any (λ j. j == id) p.cancelled_calls
      then some (response_err id RpcErrorCode.cancelled)
      else none

unfoldable pub begin_call : ℕ → Text → PluginProcess → PluginProcess
unfolding insert_flight
begin_call id method p = record p {
  in_flight = insert_flight id method p.in_flight;
  next_call_id = max p.next_call_id ((id + 1) % 2 ^ 64);
}

abbrev pub in_flight_of : Option Text → Result Text
in_flight_of none = err plugin
in_flight_of (some method) = ok method

unfoldable pub cancel : ℕ → Method PluginProcess (Unit {0})
unfolding flight remove_flight
cancel id = do
  held ← gets (λ p. in_flight_of (flight id p.in_flight))
  method ← lift held
  modify (λ p. record p {
    in_flight = remove_flight id p.in_flight;
    cancelled_calls = push p.cancelled_calls id;
    calls = push p.calls (method ++ text "#cancelled", id);
  })
