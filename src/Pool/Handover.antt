-- ===== src/Pool/Handover.antt =====
-- Who gets a connection that comes back: `_add_to_pool` of psycopg3/psycopg3/pool/pool.py.
use psycopg.Prelude.{
  ◌≡◌, refl, sym, ap, ◌∙◌, true, false, some, List, [], ◌∷◌, ◌++◌, arith, All, append_assoc,
  append-nil,
}
use psycopg.Pool.Client.{Conn, WaitingClient, is_served}
use psycopg.Pool.State.{Pool}
use psycopg.Pool.Requests.{offer, store, notify_full, add_to_pool}
use psycopg.Pool.Balance.{offer-served, offer-free}

abbrev pub AllServed : List WaitingClient → Type 0
AllServed ws = All (λ w. is_served w ≡ true) ws

-- The offer passes over the clients that gave up.
offer-skip :
    (c : Conn) (gone ws served : List WaitingClient)
    → AllServed gone
    → offer c (gone ++ ws) served ≡ offer c ws (served ++ gone)
offer-skip c [] ws served h = ap (offer c ws) (sym (append-nil served))
offer-skip c (w ∷ gone) ws served h =
    offer-served c w (gone ++ ws) served h.0
    ∙ offer-skip c gone ws (served ++ w ∷ []) h.1
    ∙ ap (offer c ws) (append_assoc served (w ∷ []) gone)

abbrev put_away : Conn → Conn
put_away c = record c { pooled = false }

store-accepted :
    (c : Conn) (ws sv : List WaitingClient) (s : Pool)
    → store c (record { accepted = true; waiting = ws; served = sv }) s
      ≡ record s { waiting = ws; served = sv }
unfolding store
store-accepted c ws sv s = refl

-- A connection that comes to the pool goes to the client that waits longest of those that were not
-- served and did not give up; the clients before it, who gave up, leave the queue, and nothing else
-- of the pool changes.
pub add_to_pool_fifo :
    (c : Conn) (s : Pool) (gone ws : List WaitingClient) (w : WaitingClient)
    → s.waiting ≡ gone ++ w ∷ ws
    → AllServed gone
    → is_served w ≡ false
    → add_to_pool c s ≡ record s {
      waiting = ws;
      served = (s.served ++ gone) ++ record w { conn = some (record c { pooled = false }) } ∷ [];
    }
unfolding add_to_pool
add_to_pool_fifo c s gone ws w e h f =
    ap (λ o. store (put_away c) o s)
      (ap (λ l. offer (put_away c) l s.served) e
        ∙ offer-skip (put_away c) gone (w ∷ ws) s.served h
        ∙ offer-free (put_away c) w ws (s.served ++ gone) f)
    ∙ store-accepted (put_away c) ws
        ((s.served ++ gone) ++ record w { conn = some (put_away c) } ∷ []) s

-- Where all the clients of the queue gave up, the connection goes to the end of the pool, and the
-- queue is empty.
pub add_to_pool_back :
    (c : Conn) (s : Pool)
    → AllServed s.waiting
    → ((add_to_pool c s).pool ≡ s.pool ++ record c { pooled = false } ∷ [])
      × ((add_to_pool c s).waiting ≡ [])
      × ((add_to_pool c s).served ≡ s.served ++ s.waiting)
unfolding add_to_pool store notify_full offer
add_to_pool_back c s h =
    let o : offer (put_away c) s.waiting s.served
        ≡ record { accepted = false; waiting = []; served = s.served ++ s.waiting } =
      ap (λ l. offer (put_away c) l s.served) (sym (append-nil s.waiting))
      ∙ offer-skip (put_away c) s.waiting [] s.served h in
    rw o (ground arith, ground arith, ground arith)
