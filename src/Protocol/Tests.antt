-- ===== src/Protocol/Tests.antt =====
-- A connection on which the loops of psycopg3/psycopg3/generators.py run.
use psycopg.Prelude.{
  ℕ, zero, suc, ◌-◌, ◌≤◌, ◌≡◌, refl, true, false, Bool-cases, inl, inr, Option, none, some, List,
  [], ◌∷◌, ◌==◌, ltb, if◌then◌else◌, arith, ap,
}
use psycopg.Preparing.{ExecStatus, tuples_ok, copy_out}
use psycopg.Protocol.{Libpq, execute, after_wait}
use psycopg.Protocol.Behaviour.{
  Behaves, Replies, ends, copies, gives, all_results, BeginsCopy, IsOther, again, busy_again,
  rounds,
}
use psycopg.Protocol.Execute.{execute_lem}

-- How often it is still not flushed and busy, the notifies, and the results.
record Line : Type 0 where
  unsent : ℕ
  unread : ℕ
  untold : List ℕ
  results : List ℕ

abbrev flush_line : Line → ℕ × Line
flush_line c = if c.unsent == 0 then (0, c) else (1, record c { unsent = c.unsent - 1 })

abbrev tell : List ℕ → Line → Option ℕ × Line
tell [] c = (none, c)
tell (n ∷ ns) c = (some n, record c { untold = ns })

-- Result 3 begins a COPY, and is made up again and again after it.
abbrev answer : List ℕ → Line → Option ℕ × Line
answer [] c = (none, c)
answer (r ∷ rs) c = (some r, if r == 3 then c else record c { results = rs })

abbrev status_of : ℕ → ExecStatus
status_of r = if r == 3 then copy_out else tuples_ok

abbrev replies_of : List ℕ → Replies
replies_of [] = ends
replies_of (r ∷ rs) = if r == 3 then copies r else gives r (replies_of rs)

abbrev line : Libpq
line = record {
  Conn = Line;
  flush = flush_line;
  consume_input = λ c. c;
  is_busy = λ c. ltb 0 c.unread;
  notifies = λ c. tell c.untold c;
  get_result = λ c. answer c.results c;
  status = status_of;
  wait = λ w c. (true, record c { unread = c.unread - 1 });
}

tell-results :
    (ns : List ℕ) (c : Line)
    → ((tell ns c).1.results ≡ c.results) × ((tell ns c).1.unread ≡ c.unread)
tell-results [] c = (refl, refl)
tell-results (n ∷ ns) c = (refl, refl)

tell-none : (ns : List ℕ) (c : Line) → ns ≡ [] → (tell ns c).0 ≡ none
tell-none [] c h = refl
tell-none (n ∷ ns) c h = cc h

tell-some :
    (ms : List ℕ) (c : Line) (n : ℕ) (ns : List ℕ)
    → ms ≡ n ∷ ns
    → ((tell ms c).0 ≡ some n) × ((tell ms c).1.untold ≡ ns)
tell-some [] c n ns h = cc h
tell-some (m ∷ ms) c n ns h = (cc h, cc h)

answer_ends : (rs : List ℕ) (c : Line) → replies_of rs ≡ ends → (answer rs c).0 ≡ none
answer_ends [] c h = refl
answer_ends (r ∷ rs) c h = elim (Bool-cases (r == 3)) [
  | inl copy ↦ let e : copies r ≡ ends = rw copy at h in cc e
  | inr other ↦ let e : gives r (replies_of rs) ≡ ends = rw other at h in cc e
]

answer_copies :
    (rs : List ℕ) (c : Line) (q : ℕ)
    → replies_of rs ≡ copies q
    → ((answer rs c).0 ≡ some q) × BeginsCopy (status_of q)
answer_copies [] c q h = cc h
answer_copies (r ∷ rs) c q h = elim (Bool-cases (r == 3)) [
  | inl copy ↦
      let e : copies r ≡ copies q = rw copy at h in
      let same : r ≡ q = cc e in (cc same, inr (inl (rw (← same) (rw copy refl))))
  | inr other ↦ let e : gives r (replies_of rs) ≡ copies q = rw other at h in cc e
]

answer_gives :
    (rs : List ℕ) (c : Line) (q : ℕ) (qs : Replies)
    → replies_of rs ≡ gives q qs
    → ((answer rs c).0 ≡ some q) × IsOther (status_of q) × (replies_of (answer rs c).1.results ≡ qs)
answer_gives [] c q qs h = cc h
answer_gives (r ∷ rs) c q qs h = elim (Bool-cases (r == 3)) [
  | inl copy ↦ let e : copies r ≡ gives q qs = rw copy at h in cc e
  | inr other ↦
      let e : gives r (replies_of rs) ≡ gives q qs = rw other at h in
      let same : r ≡ q = cc e in
      let no_copy : status_of q ≡ tuples_ok = rw (← same) (rw other refl) in
      (cc same, (λ p. cc (no_copy, p), λ p. cc (no_copy, p), λ p. cc (no_copy, p)), rw other (cc e))
]

flushes : (n : ℕ) (c : Line) → c.unsent ≤ n → (flush_line (rounds n (again line) c)).0 ≡ 0
unfolding after_wait
flushes zero c h = ground (arith, h)
flushes (suc n) c h = flushes n (again line c) (ground (arith, h))

reads : (n : ℕ) (c : Line) → c.unread ≤ n → ltb 0 (rounds n (busy_again line) c).unread ≡ false
reads zero c h = ground (arith, h)
reads (suc n) c h = reads n (busy_again line c) (omega (arith, h))

line-Behaves : Behaves line
unfolding after_wait
line-Behaves = record {
  replies = λ c. replies_of c.results;
  queue = λ c. c.untold;
  replies_flush = λ c. ground arith;
  replies_wait = λ w c. refl;
  replies_consume = λ c. refl;
  replies_notifies = λ c. ap replies_of (tell-results c.untold c).0;
  busy_notifies = λ c. ap (ltb 0) (tell-results c.untold c).1;
  told_none = λ c h. tell-none c.untold c h;
  told_some = λ c n ns h. tell-some c.untold c n ns h;
  reply_ends = λ c ready h. answer_ends c.results c h;
  reply_copies = λ c r ready h. answer_copies c.results c r h;
  reply_gives = λ c r rs ready h. answer_gives c.results c r rs h;
  sent_in_time = λ c. (c.unsent, flushes c.unsent c (omega arith));
  answers_in_time = λ c. (c.unread, reads c.unread c (omega arith));
}

-- Two rounds to flush, three to read, a notify, and a third result that is not fetched.
abbrev busy_line : Line
busy_line = record { unsent = 2; unread = 3; untold = 8 ∷ []; results = 1 ∷ 3 ∷ 2 ∷ [] }

fetched :
    execute line 9 busy_line
    ≡ some (1 ∷ 3 ∷ [], record { unsent = 0; unread = 0; untold = []; results = 3 ∷ 2 ∷ [] })
unfolding execute
fetched = refl

execute_lem_example :
    (k : ℕ) × (c' : Line) × ((fuel : ℕ)
      → k ≤ fuel
      → execute line fuel busy_line ≡ some (all_results (line-Behaves.replies busy_line), c'))
execute_lem_example = execute_lem line line-Behaves busy_line
