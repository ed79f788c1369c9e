-- ===== src/Protocol/Loops.antt =====
-- The loops of psycopg3/psycopg3/generators.py under `execute`: each ends, and what it leaves unread.
use psycopg.Prelude.{
  ℕ, zero, suc, ◌+◌, ◌≤◌, ◌≡◌, refl, ap, ◌∙◌, Bool, true, false, Option, none, some, List, [], ◌∷◌,
  length, ◌==◌, arith, Bool-cases, inl, inr, ==_iff,
}
use psycopg.Protocol.{
  Libpq, wait_r, wait_rw, after_wait, send, until_ready, take_notifies, fetch, by_answer, add_first,
}
use psycopg.Protocol.Behaviour.{Behaves, again, busy_again, rounds}

-- A loop gives `x` with any fuel from k on.
abbrev pub Gives : {A : Type 0} → ℕ → (ℕ → Option A) → A → Type 0
Gives k loop x = (fuel : ℕ) → k ≤ fuel → loop fuel ≡ some x

pub Gives-end :
    {A : Type 0} (k : ℕ) (loop : ℕ → Option A) (x : A)
    → ((f : ℕ) → loop (suc f) ≡ some x)
    → Gives (suc k) loop x
Gives-end k loop x ends zero h = absurd (omega arith)
Gives-end k loop x ends (suc f) h = ends f

pub Gives-next :
    {A : Type 0} (k : ℕ) (loop rest : ℕ → Option A) (x : A)
    → ((f : ℕ) → loop (suc f) ≡ rest f)
    → Gives k rest x
    → Gives (suc k) loop x
Gives-next k loop rest x step given zero h = absurd (omega arith)
Gives-next k loop rest x step given (suc f) h = step f ∙ given f (omega arith)

module _ (l : Libpq) (b : Behaves l) where
  open l use {Conn, flush, consume_input, is_busy, notifies, get_result, wait}

  replies_after_wait : (w : Bool × Conn) → b.replies (after_wait l w) ≡ b.replies w.1
  unfolding after_wait
  replies_after_wait (true, c) = b.replies_consume c
  replies_after_wait (false, c) = refl

  replies_again : (c : Conn) → b.replies (again l c) ≡ b.replies c
  replies_again c =
      replies_after_wait (wait wait_rw (flush c).1)
      ∙ b.replies_wait wait_rw (flush c).1
      ∙ b.replies_flush c

  send-done : (f : ℕ) (c : Conn) → ((flush c).0 == 0) ≡ true → send l (suc f) c ≡ some (flush c).1
  unfolding send
  send-done f c h = rw h refl

  send-again :
      (f : ℕ) (c : Conn) → ((flush c).0 == 0) ≡ false → send l (suc f) c ≡ send l f (again l c)
  unfolding send
  send-again f c h = rw h refl

  sent_now :
      (k : ℕ) (c : Conn)
      → ((flush c).0 == 0) ≡ true
      → (c' : Conn) × Gives (suc k) (λ f. send l f c) c' × (b.replies c' ≡ b.replies c)
  sent_now k c done = (
    (flush c).1,
    Gives-end k (λ f. send l f c) (flush c).1 (λ f. send-done f c done),
    b.replies_flush c,
  )

  pub send_total :
      (n : ℕ) (c : Conn)
      → (flush (rounds n (again l) c)).0 ≡ 0
      → (c' : Conn) × Gives (suc n) (λ f. send l f c) c' × (b.replies c' ≡ b.replies c)
  send_total zero c h = sent_now 0 c ((==_iff (flush c).0 0).1 h)
  send_total (suc n) c h = elim (Bool-cases ((flush c).0 == 0)) [
    | inl done ↦ sent_now (suc n) c done
    | inr more ↦
        let (c', given, same) = send_total n (again l c) h in
        (
          c',
          Gives-next (suc n) (λ f. send l f c) (λ f. send l f (again l c)) c'
              (λ f. send-again f c more) given,
          same ∙ replies_again c,
        )
  ]

  replies_busy_again : (c : Conn) → b.replies (busy_again l c) ≡ b.replies c
  replies_busy_again c = b.replies_wait wait_r (consume_input c) ∙ b.replies_consume c

  until_ready-done :
      (f : ℕ) (c : Conn)
      → is_busy (consume_input c) ≡ false
      → until_ready l (suc f) c ≡ some (consume_input c)
  unfolding until_ready
  until_ready-done f c h = rw h refl

  until_ready-again :
      (f : ℕ) (c : Conn)
      → is_busy (consume_input c) ≡ true
      → until_ready l (suc f) c ≡ until_ready l f (busy_again l c)
  unfolding until_ready
  until_ready-again f c h = rw h refl

  abbrev BecomesReady : ℕ → Conn → Type 0
  BecomesReady k c =
      (c' : Conn) × Gives k (λ f. until_ready l f c) c'
      × (is_busy c' ≡ false)
      × (b.replies c' ≡ b.replies c)

  ready_now : (k : ℕ) (c : Conn) → is_busy (consume_input c) ≡ false → BecomesReady (suc k) c
  ready_now k c ready = (
    consume_input c,
    Gives-end k (λ f. until_ready l f c) (consume_input c) (λ f. until_ready-done f c ready),
    ready,
    b.replies_consume c,
  )

  until_ready_total :
      (n : ℕ) (c : Conn)
      → is_busy (consume_input (rounds n (busy_again l) c)) ≡ false
      → BecomesReady (suc n) c
  until_ready_total zero c h = ready_now 0 c h
  until_ready_total (suc n) c h = elim (Bool-cases (is_busy (consume_input c))) [
    | inr ready ↦ ready_now (suc n) c ready
    | inl busy ↦
        let (c', given, ready, same) = until_ready_total n (busy_again l c) h in
        (
          c',
          Gives-next (suc n) (λ f. until_ready l f c) (λ f. until_ready l f (busy_again l c)) c'
              (λ f. until_ready-again f c busy) given,
          ready,
          same ∙ replies_busy_again c,
        )
  ]

  take_notifies-none :
      (f : ℕ) (c : Conn)
      → (notifies c).0 ≡ none
      → take_notifies l (suc f) c ≡ some ([], (notifies c).1)
  unfolding take_notifies
  take_notifies-none f c h =
      ap
        (λ o.
          by_answer (o, (notifies c).1) (λ c'. some ([], c'))
            (λ n c'. add_first n (take_notifies l f c')))
        h

  take_notifies-some :
      (f n : ℕ) (c : Conn)
      → (notifies c).0 ≡ some n
      → take_notifies l (suc f) c ≡ add_first n (take_notifies l f (notifies c).1)
  unfolding take_notifies
  take_notifies-some f n c h =
      ap
        (λ o.
          by_answer (o, (notifies c).1) (λ c'. some ([], c'))
            (λ n c'. add_first n (take_notifies l f c')))
        h

  -- The notifies that were read are told in their order.
  take_notifies_total :
      (ns : List ℕ) (c : Conn)
      → b.queue c ≡ ns
      → (c' : Conn) × Gives (suc (length ns)) (λ f. take_notifies l f c) (ns, c')
        × (is_busy c' ≡ is_busy c)
        × (b.replies c' ≡ b.replies c)
  take_notifies_total [] c h = (
    (notifies c).1,
    Gives-end 0 (λ f. take_notifies l f c) ([], (notifies c).1)
        (λ f. take_notifies-none f c (b.told_none c h)),
    b.busy_notifies c,
    b.replies_notifies c,
  )
  take_notifies_total (n ∷ ns) c h =
      let (told, left) = b.told_some c n ns h in
      let (c', given, busy, same) = take_notifies_total ns (notifies c).1 left in
      (
        c',
        Gives-next (suc (length ns)) (λ f. take_notifies l f c)
            (λ f. add_first n (take_notifies l f (notifies c).1)) (n ∷ ns, c')
            (λ f. take_notifies-some f n c told) (λ f e. ap (add_first n) (given f e)),
        busy ∙ b.busy_notifies c,
        same ∙ b.replies_notifies c,
      )

  fetch-parts :
      (f : ℕ) (c c1 c2 : Conn) (ns : List ℕ)
      → until_ready l f c ≡ some c1
      → take_notifies l f c1 ≡ some (ns, c2)
      → fetch l f c ≡ some (get_result c2)
  unfolding fetch
  fetch-parts f c c1 c2 ns h k = rw (h, fetch) (rw (k, fetch) refl)

  -- A result is read at a connection that is not busy, and none has been lost before.
  pub fetch_total :
      (c : Conn)
      → (k : ℕ) × (c' : Conn) × Gives k (λ f. fetch l f c) (get_result c')
        × (is_busy c' ≡ false)
        × (b.replies c' ≡ b.replies c)
  fetch_total c =
      let (n, in_time) = b.answers_in_time c in
      let (c1, read, ready, same) = until_ready_total n c in_time in
      let (c2, told, busy, same') = take_notifies_total (b.queue c1) c1 refl in
      (
        suc n + suc (length (b.queue c1)),
        c2,
        (λ f e.
            fetch-parts f c c1 c2 (b.queue c1) (read f (omega (arith, e)))
              (told f (omega (arith, e)))),
        busy ∙ ready,
        same' ∙ same,
      )
