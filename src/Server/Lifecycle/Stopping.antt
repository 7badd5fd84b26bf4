-- ===== src/Server/Lifecycle/Stopping.antt =====
-- stop: how long it waits, and what it leaves behind.
use dora_foxglove.Prelude.{
  ℕ, zero, suc, ◌+◌, ◌*◌, ◌≤◌, ◌<◌, ◌≡◌, refl, sym, ◌∙◌, Bool, true, false, List, [], ◌∷◌, none,
  some, arith, ◌&&◌, not, ltb, if◌then◌else◌, Bool-cases, inl, inr,
}
use dora_foxglove.Server.Types.{Server, Env}
use dora_foxglove.Server.Payload.{JsonLib}
use dora_foxglove.Server.Lifecycle.{
  Event, polled, terminated, stop_called, Transport, Service, noted, max_shutdown_ms, begin_close,
  terminate, force, finish, stop_accepting, connections, poll, wait, close_all, stop,
}

-- How often the endpoint was polled.
abbrev pub polls : List Event → ℕ
polls [] = 0
polls (polled ∷ history) = suc (polls history)
polls (_ ∷ history) = polls history

polls-begin_close :
    (hdls : List ℕ) (l : Service) → polls (begin_close hdls l).history ≡ polls l.history
unfolding begin_close
polls-begin_close [] l = refl
polls-begin_close (hdl ∷ hdls) l = polls-begin_close hdls _

module _ (T : Transport) where
  polls-terminate :
      (hdls : List ℕ) (l : Service) → polls (terminate T hdls l).history ≡ polls l.history
  unfolding terminate
  polls-terminate [] l = refl
  polls-terminate (hdl ∷ hdls) l =
      polls-terminate hdls (if T.attached l.history hdl then noted (terminated hdl) l else l)
      ∙ same (T.attached l.history hdl)
    where
      same :
          (b : Bool) → polls (if b then noted (terminated hdl) l else l).history ≡ polls l.history
      same true = refl
      same false = refl

  polls-force : (hdls : List ℕ) (l : Service) → polls (force T hdls l).history ≡ polls l.history
  unfolding force
  polls-force hdls l = same (T.stopped l.history)
    where
      same :
          (b : Bool)
          → polls (if b then l else noted stop_called (terminate T hdls l)).history
            ≡ polls l.history
      same true = refl
      same false = polls-terminate hdls l

  polls-stop_accepting : (l : Service) → polls (stop_accepting T l).history ≡ polls l.history
  unfolding stop_accepting
  polls-stop_accepting l = ground arith

-- A run loop that is stopped returns, and one that has been told to stop.
pub record StopsRun (T : Transport) : Type 0 where
  pub stopped_ends : (history : List Event) → T.stopped history ≡ true → T.run_ends history ≡ true
  pub stop_called_ends : (history : List Event) → T.run_ends (stop_called ∷ history) ≡ true

-- What stop leaves of the members.
abbrev pub emptied : Service → Server
emptied l = record l.server { clients = [] }

module _ (T : Transport) where
  -- Behind `force` the run loop ends.
  pub force-ends :
      StopsRun T → (hdls : List ℕ) (l : Service) → T.run_ends (force T hdls l).history ≡ true
  unfolding force
  force-ends h hdls l = elim (Bool-cases (T.stopped l.history)) [
    | inl e ↦ rw e (h.stopped_ends l.history e)
    | inr e ↦ rw e (h.stop_called_ends _)
  ]

  -- The join of a run loop that ends.
  pub finish-ends :
      (l : Service)
      → T.run_ends l.history ≡ true
      → (m : Service) × (finish T l ≡ some m)
        × (polls m.history ≡ polls l.history)
        × (m.server ≡ emptied l)
        × (m.has_thread ≡ false)
  unfolding finish
  finish-ends l e = elim (Bool-cases l.has_thread) [
    | inl there ↦ rw (e, there) (_, refl, refl, refl, refl)
    | inr no_thread ↦ rw no_thread (_, refl, refl, refl, refl)
  ]

  -- The join of one that does not.
  finish-hangs :
      (l : Service) → l.has_thread ≡ true → T.run_ends l.history ≡ false → finish T l ≡ none
  unfolding finish
  finish-hangs l there e = rw (there, e) refl

suc_add : (m n : ℕ) → suc m + n ≡ suc (m + n)
suc_add m n = omega arith

hundred : (n : ℕ) → 101 + n ≡ suc (100 + n)
hundred n = omega arith

module _ (J : JsonLib) (env : Env) (T : Transport) where
  -- Does the loop go on?
  abbrev goes_on : ℕ → Service → Bool
  goes_on duration l = not (T.stopped l.history) && ltb duration max_shutdown_ms

  wait_again :
      (fuel duration : ℕ) (l : Service)
      → goes_on duration l ≡ true
      → wait J env T (suc fuel) duration l ≡ wait J env T fuel (duration + 10) (poll J env T l)
  unfolding wait
  wait_again fuel duration l e = rw (e, wait) refl

  wait_ended :
      (fuel duration : ℕ) (l : Service)
      → goes_on duration l ≡ false
      → wait J env T (suc fuel) duration l ≡ l
  unfolding wait
  wait_ended fuel duration l e = rw (e, wait) refl

  polls-poll : (l : Service) → polls (poll J env T l).history ≡ suc (polls l.history)
  unfolding poll
  polls-poll l = refl

  in_time : (b : Bool) (duration : ℕ) → (b && ltb duration max_shutdown_ms) ≡ true → duration < 1000
  in_time b duration e = ground arith

  -- Each round takes ten of the milliseconds that are left.
  polls-wait :
      (fuel duration : ℕ) (l : Service) (rounds : ℕ)
      → 1000 ≤ duration + 10 * rounds
      → polls (wait J env T fuel duration l).history ≤ polls l.history + rounds
  polls-wait zero duration l rounds h = unfold wait in omega arith
  polls-wait (suc fuel) duration l zero h = elim (Bool-cases (goes_on duration l)) [
    | inl e ↦ absurd (omega (arith, in_time _ duration e))
    | inr e ↦ rw (wait_ended fuel duration l e) (omega arith)
  ]
  polls-wait (suc fuel) duration l (suc rounds) h = elim (Bool-cases (goes_on duration l)) [
    | inl e ↦ rw (wait_again fuel duration l e) (
        omega (
          arith,
          polls-wait fuel (duration + 10) (poll J env T l) rounds (omega arith),
          polls-poll l,
        ))
    | inr e ↦ rw (wait_ended fuel duration l e) (omega arith)
  ]

  -- More fuel than the rounds that are left changes nothing.
  wait_enough :
      (rounds more duration : ℕ) (l : Service)
      → 1000 ≤ duration + 10 * rounds
      → wait J env T (suc (rounds + more)) duration l ≡ wait J env T (suc rounds) duration l
  wait_enough zero more duration l h = elim (Bool-cases (goes_on duration l)) [
    | inl e ↦ absurd (omega (arith, in_time _ duration e))
    | inr e ↦ wait_ended (zero + more) duration l e ∙ sym (wait_ended zero duration l e)
  ]
  wait_enough (suc rounds) more duration l h = elim (Bool-cases (goes_on duration l)) [
    | inl e ↦
        wait_again (suc rounds + more) duration l e
        ∙ (rw (suc_add rounds more)
              (wait_enough rounds more (duration + 10) (poll J env T l) (omega arith))
            ∙ sym (wait_again (suc rounds) duration l e))
    | inr e ↦
        wait_ended (suc rounds + more) duration l e ∙ sym (wait_ended (suc rounds) duration l e)
  ]

  polls-close_all :
      (hdls : List ℕ) (l : Service)
      → polls (close_all J env T hdls l).history ≤ polls l.history + 100
  unfolding close_all
  polls-close_all [] l = omega arith
  polls-close_all (hdl ∷ hdls) l =
      let begun = begin_close (hdl ∷ hdls) l in
      omega (
        arith,
        polls-force T (hdl ∷ hdls) (wait J env T 101 0 begun),
        polls-wait 101 0 begun 100 (omega arith),
        polls-begin_close (hdl ∷ hdls) l,
      )

  -- stop on a server whose endpoint runs: with the connection of a client to close, it ends, after at
  -- most a hundred rounds of its wait, a second, whatever the clients and the handlers do meanwhile,
  -- with no client in _clients and the thread joined. Without one it calls nothing that stops the run
  -- loop: if that goes on, stop hangs in the join. A run loop ends that is stopped or has been told to
  -- stop. The fuel of the wait is enough: more of it changes nothing.
  pub stop_ends :
      (l : Service)
      → StopsRun T
      → T.stopped l.history ≡ false
      → ((hdl : ℕ) (hdls : List ℕ)
          → connections T (stop_accepting T l) ≡ hdl ∷ hdls
          → (m : Service) × (stop J env T l ≡ some m)
            × (polls m.history ≤ polls l.history + 100)
            × (m.server.clients ≡ [])
            × (m.has_thread ≡ false))
        × (connections T (stop_accepting T l) ≡ []
            → (stop_accepting T l).has_thread ≡ true
            → T.run_ends (stop_accepting T l).history ≡ false
            → stop J env T l ≡ none)
        × ((more : ℕ) (m : Service) → wait J env T (101 + more) 0 m ≡ wait J env T 101 0 m)
  unfolding stop close_all
  stop_ends l h e = (
    λ hdl hdls some_open.
        let halted = stop_accepting T l in
        let closed = force T (hdl ∷ hdls) (wait J env T 101 0 (begin_close (hdl ∷ hdls) halted)) in
        let (m, ended, polled_as, left, joined_now) =
          finish-ends T closed (force-ends T h (hdl ∷ hdls) _) in
        (
          m,
          rw (e, some_open) ended,
          omega (arith, polled_as, polls-close_all (hdl ∷ hdls) halted, polls-stop_accepting T l),
          rw left refl,
          joined_now,
        ),
    λ nobody there goes_on. rw (e, nobody) (finish-hangs T (stop_accepting T l) there goes_on),
    λ more m. rw (hundred more) (wait_enough 100 more 0 m (omega arith)),
  )
