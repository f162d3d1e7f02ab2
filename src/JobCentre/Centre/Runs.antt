-- ===== src/JobCentre/Centre/Runs.antt =====
-- 9-job-centre: the whole server, with any number of clients: their connections, requests and departures in
-- any order. A client's requests come one after the other, and those of several clients interleave.
use protohackers.Prelude.{
  ℕ, suc, ◌^◌, ◌≤◌, ◌<◌, ◌≡◌, ◌≢◌, ◌∙◌, ◌↔◌, inl, inr, refl, sym, subst, Option, none, some, true,
  false, List, [], ◌∷◌, ok, err, ok-injective, Bytes, bytes_eq, bytes_eq_iff, Bool-cases, length,
  arith,
}
use protohackers.JobCentre.Handler.{
  Handler, init_queue_handler, panics, Got, got, waiting, is_own, get_job, on_client_connected,
  on_client_disconnected,
}
use protohackers.JobCentre.Handler.Safe.{IsSafe}
use protohackers.JobCentre.Handler.Disconnect.{IsAmong}
use protohackers.JobCentre.Requests.Dispatch.{Json, Outcome, written, blocked, crashed}
use protohackers.JobCentre.Requests.Sessions.{serve_line}
use protohackers.JobCentre.Centre.{Event, given, none_given, left, Run, start, extend}
use protohackers.JobCentre.Centre.Exchanges.{
  Exchange, connected, gone, answer, waits, woken, is_online, Tells, of_connection, of_departure,
  of_late_get, of_later_wait, AreTold, nothing, silent, spoken,
}
use protohackers.JobCentre.Centre.View.{view, get_job_refines, on_client_disconnected_refines}
use protohackers.JobCentre.Centre.Clients.{
  IsConnected, get_job-Kept, on_client_connected_lem, on_client_disconnected-AreOthersKept,
}
use protohackers.JobCentre.Centre.Requests.{
  GoesOn, StepsOn, IsFollowed, serve_line-IsFollowed, Kept-GoesOn,
}

module _ (json : Json) where
  -- One step of the server, with what is exchanged. The order in which Go meets the queues of a `get` is new
  -- each time. A `get` that waits is `blocked`, and `wakes` for each further round. Only a client that is
  -- online sends a line, and its name is not empty.
  pub data Serves (xs : List Exchange) (h : Handler) : Exchange → Handler → Type 0 where
    connects :
        (client : Bytes)
        → client ≢ []
        → Serves xs h (connected client) (on_client_connected client h)
    answers :
        (client l : Bytes) (order : List Bytes → List Bytes) {w : Bytes} {h' : Handler}
        → is_online client xs ≡ true
        → serve_line json client order l h ≡ written w h'
        → Serves xs h (answer client l w order) h'
    blocks :
        (client l : Bytes) (order : List Bytes → List Bytes) (w : Bytes) (c : ℕ) {h' : Handler}
        → is_online client xs ≡ true
        → serve_line json client order l h ≡ blocked w c h'
        → Serves xs h (waits client l order) h'
    wakes :
        (client : Bytes) (queues : List Bytes) {h' : Handler} {g : Got}
        → is_online client xs ≡ true
        → get_job client false queues true h ≡ ok (h', g)
        → Serves xs h (woken client queues g) h'
    disconnects :
        (client : Bytes) (ids : List ℕ)
        → is_online client xs ≡ true
        → ((i : ℕ) → IsAmong i ids ↔ (is_own (h.client_job client) i ≡ true))
        → Serves xs h (gone client) (on_client_disconnected client ids h)

  -- The exchanges so far, the last first, and the handler that they lead to.
  pub data Reach : List Exchange → Handler → Type 0 where
    begin : Reach [] init_queue_handler
    later :
        {xs : List Exchange} {x : Exchange} {h h' : Handler}
        → Reach xs h
        → Serves xs h x h'
        → Reach (x ∷ xs) h'

  -- Who is online is in the handler's map.
  abbrev pub AreConnected : List Exchange → Handler → Type 0
  AreConnected xs h = (c : Bytes) → is_online c xs ≡ true → (c ≢ []) × IsConnected h c

  -- The job centre makes the steps that the exchanges tell of, and ends with the jobs where the handler has
  -- them.
  abbrev pub Follows : List Exchange → Handler → Type 0
  Follows xs h = (es : List Event) × AreTold json xs es × Run es (view h)

  abbrev pub Holds : List Exchange → Handler → Type 0
  Holds xs h = IsSafe h × (h.job_id ≤ length xs) × AreConnected xs h × Follows xs h

  same_centre :
      (xs : List Exchange) (x : Exchange) (e : Option Event) (h h' : Handler)
      → Follows xs h
      → Tells json x e
      → StepsOn (view h) (view h') e
      → Follows (x ∷ xs) h'
  same_centre xs x none h h' (es, told, run) tells same =
      (es, silent told tells, subst (Run es) (sym same) run)
  same_centre xs x (some e) h h' (es, told, run) tells step =
      (e ∷ es, spoken told tells, extend run step)

  -- An exchange in which nobody comes or goes.
  kept_up :
      (xs : List Exchange) (x : Exchange) (e : Option Event) (h h' : Handler)
      → Holds xs h
      → ((c : Bytes) → is_online c (x ∷ xs) ≡ is_online c xs)
      → GoesOn h h'
      → Tells json x e
      → StepsOn (view h) (view h') e
      → Holds (x ∷ xs) h'
  kept_up xs x e h h' (v, le, online, follows) same (safe, counter, clients) tells step = (
    safe,
    omega arith,
    λ c is. let (named, there) = online c (sym (same c) ∙ is) in (named, clients c there),
    same_centre xs x e h h' follows tells step,
  )

  connects-Holds :
      (xs : List Exchange) (h : Handler) (client : Bytes)
      → Holds xs h
      → client ≢ []
      → Holds (connected client ∷ xs) (on_client_connected client h)
  connects-Holds xs h client (v, le, online, follows) named =
      let (safe, (counter, clients), there, same) = on_client_connected_lem client h v in
      (
        safe,
        omega arith,
        λ c is. elim (Bool-cases (bytes_eq c client)) [
          | inl e ↦
              let is_client = (bytes_eq_iff c client).0 e in
              (
                λ empty. named (sym is_client ∙ empty),
                subst (IsConnected (on_client_connected client h)) (sym is_client) there,
              )
          | inr e ↦ let (named', there') = online c (rw e at is) in (named', clients c there')
        ],
        same_centre xs (connected client) none h (on_client_connected client h) follows
            of_connection same,
      )

  disconnects-Holds :
      (xs : List Exchange) (h : Handler) (client : Bytes) (ids : List ℕ)
      → Holds xs h
      → is_online client xs ≡ true
      → ((i : ℕ) → IsAmong i ids ↔ (is_own (h.client_job client) i ≡ true))
      → Holds (gone client ∷ xs) (on_client_disconnected client ids h)
  disconnects-Holds xs h client ids (v, le, online, follows) is covers =
      let (named, (s, e)) = online client is in
      let covers' : (i : ℕ) → IsAmong i ids ↔ (s i ≡ true) =
        (subst (λ o. (i : ℕ) → IsAmong i ids ↔ (is_own o i ≡ true)) e covers) in
      let (safe, step) = on_client_disconnected_refines h v client ids s e covers' in
      let (counter, others) = on_client_disconnected-AreOthersKept client ids h in
      (
        safe,
        omega arith,
        λ c is'. elim (Bool-cases (bytes_eq c client)) [
          | inl same ↦ cc (rw same at is')
          | inr other ↦
              let (named', (s', e')) = online c (rw other at is') in
              (
                named',
                (s', others c (λ same. cc (sym other ∙ (bytes_eq_iff c client).1 same)) ∙ e'),
              )
        ],
        same_centre xs (gone client) (some (left client)) h (on_client_disconnected client ids h)
            follows of_departure step,
      )

  written-Holds :
      (xs : List Exchange) (client l : Bytes) (order : List Bytes → List Bytes) (h h' : Handler)
      (o : Outcome) (w : Bytes)
      → Holds xs h
      → IsFollowed json client l order h o
      → o ≡ written w h'
      → Holds (answer client l w order ∷ xs) h'
  written-Holds xs client l order h h' o w holds followed e =
      let (goes_on, event, tells, step) = subst (IsFollowed json client l order h) e followed in
      kept_up xs (answer client l w order) event h h' holds (λ c. refl) goes_on tells step

  blocked-Holds :
      (xs : List Exchange) (client l : Bytes) (order : List Bytes → List Bytes) (h h' : Handler)
      (o : Outcome) (w : Bytes) (k : ℕ)
      → Holds xs h
      → IsFollowed json client l order h o
      → o ≡ blocked w k h'
      → Holds (waits client l order ∷ xs) h'
  blocked-Holds xs client l order h h' o w k holds followed e =
      let (goes_on, event, tells, step) = subst (IsFollowed json client l order h) e followed in
      kept_up xs (waits client l order) (some event) h h' holds (λ c. refl) goes_on tells step

  -- A further round of a `get`; it does not panic.
  woken-Holds :
      (xs : List Exchange) (client : Bytes) (queues : List Bytes) (h : Handler)
      → Holds xs h
      → is_online client xs ≡ true
      → (h' : Handler) × (g : Got) × (get_job client false queues true h ≡ ok (h', g))
        × Holds (woken client queues g ∷ xs) h'
  woken-Holds xs client queues h (v, le, online, follows) is =
      let (named, there) = online client is in
      let holds : Holds xs h = (v, le, online, follows) in
      elim (get_job_refines h v client queues true there.0 named there.1) [
        | inl (j, h', done, safe, step) ↦
            let kept = get_job-Kept client false queues true h h' (got j) done in
            (
              h',
              got j,
              done,
              kept_up xs (woken client queues (got j)) (some (given client queues j)) h h' holds
                  (λ c. refl) (Kept-GoesOn h h' safe kept) of_late_get step,
            )
        | inr (inl (_, h', done, safe, _, _, step)) ↦
            let g = waiting h.queues.made in
            let kept = get_job-Kept client false queues true h h' g done in
            (
              h',
              g,
              done,
              kept_up xs (woken client queues g) (some (none_given queues)) h h' holds (λ c. refl)
                  (Kept-GoesOn h h' safe kept) of_later_wait step,
            )
        | inr (inr (no_wait, _, _)) ↦ cc no_wait
      ]

  Serves-Holds :
      {xs : List Exchange} {x : Exchange} {h h' : Handler}
      → suc (length xs) < 2 ^ 32
      → Holds xs h
      → Serves xs h x h'
      → Holds (x ∷ xs) h'
  Serves-Holds {xs} {x} {h} lt holds (connects client named) =
      connects-Holds xs h client holds named
  Serves-Holds {xs} {x} {h} {h'} lt (v, le, online, follows) (answers client l order is e) =
      let (named, there) = online client is in
      written-Holds xs client l order h h' _ _ (v, le, online, follows)
        (serve_line-IsFollowed json client order h v named there (omega arith) l) e
  Serves-Holds {xs} {x} {h} {h'} lt (v, le, online, follows) (blocks client l order w c is e) =
      let (named, there) = online client is in
      blocked-Holds xs client l order h h' _ w c (v, le, online, follows)
        (serve_line-IsFollowed json client order h v named there (omega arith) l) e
  Serves-Holds {xs} {x} {h} {h'} lt holds (wakes client queues {g = g} is e) =
      let (h'', g', done, holds') = woken-Holds xs client queues h holds is in
      let same : (h'', g') ≡ (h', g) = (ok-injective (sym done ∙ e)) in
      subst (λ (p : Handler × Got). Holds (woken client queues p.1 ∷ xs) p.0) same holds'
  Serves-Holds {xs} {x} {h} lt holds (disconnects client ids is covers) =
      disconnects-Holds xs h client ids holds is covers

  Reach-Holds : {xs : List Exchange} {h : Handler} → length xs < 2 ^ 32 → Reach xs h → Holds xs h
  Reach-Holds lt begin = (
    record {
      queues = record { queues = λ n h e. cc; located = λ i n p e. cc };
      held = λ i j c e. cc;
      owned = λ c i own. cc;
      issued = λ i lt. (refl, refl);
    },
    omega arith,
    λ c is. cc is,
    ([], nothing, start (λ i. refl)),
  )
  Reach-Holds lt (later r s) = Serves-Holds lt (Reach-Holds (omega arith) r) s

  -- Whatever the clients send in whatever order, the job centre has a run whose events are those that the
  -- requests and their answers tell of, one after the other, and that leads to the jobs where the handler
  -- has them; as long as the counter of ids cannot overflow.
  pub Reach-Follows :
      {xs : List Exchange} {h : Handler} → length xs < 2 ^ 32 → Reach xs h → Follows xs h
  Reach-Follows lt r = let (_, _, _, follows) = Reach-Holds lt r in follows

  -- In every handler that the server reaches, as long as the counter of ids cannot overflow: no line of a
  -- client that is online makes the server panic, and no round of a `get` that waits does, neither by a map
  -- that is nil nor in the heap of a queue.
  pub never_crashes :
      {xs : List Exchange} {h : Handler} (client l w : Bytes) (order : List Bytes → List Bytes)
      → suc (length xs) < 2 ^ 32
      → Reach xs h
      → is_online client xs ≡ true
      → (serve_line json client order l h ≢ crashed w)
        × ((queues : List Bytes) → get_job client false queues true h ≢ err panics)
  never_crashes {xs} {h} client l w order lt r is =
      let (v, le, online, follows) = Reach-Holds (omega arith) r in
      let (named, there) = online client is in
      (
        λ e.
            subst (IsFollowed json client l order h) e
              (serve_line-IsFollowed json client order h v named there (omega arith) l),
        λ queues e.
            let (h', g, done, _) = woken-Holds xs client queues h (v, le, online, follows) is in
            cc (sym done ∙ e),
      )
