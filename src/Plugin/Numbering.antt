-- ===== src/Plugin/Numbering.antt =====
-- The numbers of a process's calls.
use labrys.Base.{
  ℕ, ◌+◌, ◌%◌, ◌^◌, ◌<◌, ◌≤◌, max, length, ◌≡◌, refl, none, List, [], ◌∷◌, Text, Result, ok, err,
  panic, All, arith, inl, inr, Option-cases,
}
use labrys.Plugin.Handshakes.{PluginManifest, Handshake, negotiate}
use labrys.Plugin.Processes.{
  Flights, insert_flight, remove_flight, flight, PluginProcess, connect, connected,
  mark_unavailable, shutdown, invoke, begin_call, cancel,
}

-- Every call in flight has a number below `n`.
abbrev pub AreBelow : ℕ → Flights → Type 0
AreBelow n fs = All (λ f. f.0 < n) fs

AreBelow-mono : (n m : ℕ) (fs : Flights) → n ≤ m → AreBelow n fs → AreBelow m fs
AreBelow-mono n m [] le h = tt
AreBelow-mono n m ((j, _) ∷ fs) le h = (omega (arith, le, h.0), AreBelow-mono n m fs le h.1)

insert_flight-AreBelow :
    (n id : ℕ) (method : Text) (fs : Flights)
    → id < n
    → AreBelow n fs
    → AreBelow n (insert_flight id method fs)
unfolding insert_flight
insert_flight-AreBelow n id method [] below h = (below, tt)
insert_flight-AreBelow n id method ((j, m) ∷ fs) below h =
    ground (arith, insert_flight-AreBelow n id method fs)

remove_flight-AreBelow :
    (n id : ℕ) (fs : Flights) → AreBelow n fs → AreBelow n (remove_flight id fs)
unfolding remove_flight
remove_flight-AreBelow n id [] h = tt
remove_flight-AreBelow n id ((j, m) ∷ fs) h = ground (arith, remove_flight-AreBelow n id fs)

-- A call below which all are is not in flight.
flight-AreBelow : (n : ℕ) (fs : Flights) → AreBelow n fs → flight n fs ≡ none
unfolding flight
flight-AreBelow n [] h = refl
flight-AreBelow n ((j, m) ∷ fs) h = ground (arith, flight-AreBelow n fs)

-- The calls in flight are below the next number, which is at most `n`.
abbrev IsNumbered : ℕ → PluginProcess → Type 0
IsNumbered n p = AreBelow p.next_call_id p.in_flight × (p.next_call_id ≤ n)

connected-IsNumbered :
    (n : ℕ) (m : PluginManifest) (r : Result Handshake) → 1 ≤ n → IsNumbered n (connected m r)
connected-IsNumbered n m (ok h) le = (tt, le)
connected-IsNumbered n m (err e) le = (tt, le)
connected-IsNumbered n m panic le = (tt, le)

connect-IsNumbered : (n : ℕ) (m : PluginManifest) → 1 ≤ n → IsNumbered n (connect m)
unfolding connect
connect-IsNumbered n m le = connected-IsNumbered n m (negotiate m) le

-- A call of a process's methods.
pub data Call (V : Type 0) : Type 0 where
  invocation : Text → V → (Text → V → Result V) → Call V
  beginning : ℕ → Text → Call V
  cancelling : ℕ → Call V
  loss stop : Call V

module _ {V : Type 0} where
  unfoldable pub called : Call V → PluginProcess → PluginProcess
  called (invocation method params handler) p = (invoke method params handler p).1
  called (beginning id method) p = begin_call id method p
  called (cancelling id) p = (cancel id p).1
  called loss p = mark_unavailable p
  called stop p = shutdown p

  abbrev pub calls : List (Call V) → PluginProcess → PluginProcess
  calls [] p = p
  calls (c ∷ cs) p = calls cs (called c p)

  -- A call that is begun from outside has a number below `b`.
  abbrev pub IsWithin : ℕ → Call V → Type 0
  IsWithin b (beginning id method) = id < b
  IsWithin b _ = Unit

  called-IsNumbered :
      (b n : ℕ) (c : Call V) (p : PluginProcess)
      → b ≤ n
      → n + 1 < 2 ^ 64
      → IsWithin b c
      → IsNumbered n p
      → IsNumbered (n + 1) (called c p)
  unfolding called invoke begin_call cancel mark_unavailable shutdown
  called-IsNumbered b n (invocation method params handler) p le room within (h, top) =
      let id = p.next_call_id in
      let same : (id + 1) % 2 ^ 64 ≡ id + 1 = omega (arith, top, room) in
      let next = AreBelow-mono id (id + 1) p.in_flight (omega arith) h in
      let flown =
        remove_flight-AreBelow (id + 1) id (insert_flight id method p.in_flight)
          (insert_flight-AreBelow (id + 1) id method p.in_flight (omega arith) next) in
      ground (arith, same)
  called-IsNumbered b n (beginning id method) p le room within (h, top) =
      let same : (id + 1) % 2 ^ 64 ≡ id + 1 = omega (arith, within, le, room) in
      let m = max p.next_call_id (id + 1) in
      rw same (
        insert_flight-AreBelow m id method p.in_flight (omega arith)
            (AreBelow-mono p.next_call_id m p.in_flight (omega arith) h),
        omega (arith, within, le, top),
      )
  called-IsNumbered b n (cancelling id) p le room within (h, top) =
      let rest = remove_flight-AreBelow p.next_call_id id p.in_flight h in
      elim (Option-cases (flight id p.in_flight)) [
        | inl e ↦ rw (e, called, cancel) (h, omega (arith, top))
        | inr (method, e) ↦ rw (e, called, cancel) (rest, omega (arith, top))
      ]
  called-IsNumbered b n loss p le room within h = ground arith
  called-IsNumbered b n stop p le room within h = ground arith

  calls-IsNumbered :
      (b n : ℕ) (cs : List (Call V)) (p : PluginProcess)
      → b ≤ n
      → n + length cs < 2 ^ 64
      → All (IsWithin b) cs
      → IsNumbered n p
      → AreBelow (calls cs p).next_call_id (calls cs p).in_flight
  calls-IsNumbered b n [] p le room within h = h.0
  calls-IsNumbered b n (c ∷ cs) p le room within h =
      calls-IsNumbered b (n + 1) cs (called c p) (omega (arith, le)) (omega (arith, room)) within.1
        (called-IsNumbered b n c p le (omega (arith, room)) within.0 h)

  -- After a handshake and any calls, the number that the next call gets is not that of a call in
  -- flight, when the numbers of the calls begun from outside are below a bound `b` and the bound
  -- and the number of the calls together are below 2 ^ 64, so that the u64 does not wrap.
  pub flight-connect-calls :
      (m : PluginManifest) (b : ℕ) (cs : List (Call V))
      → 1 ≤ b
      → b + length cs < 2 ^ 64
      → All (IsWithin b) cs
      → let p = calls cs (connect m) in flight p.next_call_id p.in_flight ≡ none
  flight-connect-calls m b cs positive room within =
      let p = calls cs (connect m) in
      flight-AreBelow p.next_call_id p.in_flight (
        calls-IsNumbered b b cs (connect m) (omega arith) room within
          (connect-IsNumbered b m positive))
