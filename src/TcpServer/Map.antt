-- ===== src/TcpServer/Map.antt =====
-- The map of the connections of matelib/TcpServer.cc, against the lives of the connections.
use mathlib.Core.Bool.{true≢false}
use mathlib.Core.Option.{some_inj, none-ne-some}
use matelib.Prelude.{
  ℕ, suc, ◌+◌, ◌%◌, ◌^◌, ◌≤◌, ◌<◌, ◌≡◌, ◌≢◌, refl, sym, ap, ◌∙◌, inl, inr, Bool, true, false, List,
  [], some, arith, eq_or_ne, le_or_lt,
}
use matelib.Prelude.Text.{
  insert, find, erase, find-insert_self, find-insert_ne, find-erase_self, find-erase_ne,
}
use matelib.Prelude.Slices.{bytes_eq_or_ne}
use matelib.Prelude.Store.{put, put_self, put_ne}
use matelib.InetAddress.{InetAddress}
use matelib.EventLoopThreadPool.{EventLoopThreadPool}
use matelib.TcpServer.{Connection, TcpServer, new_connection, remove_connection_in_loop}
use matelib.TcpServer.Naming.{id_of, id_of-connection_name}
use matelib.TcpServer.Lives.{
  Phase, absent, accepted, up, closing, removed, gone, is_kept, System, taken_in, Step, accepts,
  establishes, closes, removes, destroys, Reach, here, next,
}

-- The map holds a connection under its name from its acceptance to its removal, and nothing else.
pub record IsMapped (s : System) : Type 0 where
  pub unused : (i : ℕ) → s.server.next_conn_id ≤ i → s.phase i ≡ absent
  pub named : (i : ℕ) → i < s.server.next_conn_id → id_of (s.conns i).name ≡ i
  pub kept :
      (i : ℕ)
      → is_kept (s.phase i) ≡ true
      → find (s.conns i).name s.server.connection_map ≡ some (s.conns i)
  pub only :
      (key : List ℕ) (conn : Connection)
      → find key s.server.connection_map ≡ some conn
      → (i : ℕ) × (is_kept (s.phase i) ≡ true) × (conn ≡ s.conns i) × (key ≡ conn.name)

-- A kept connection has been accepted.
kept_below :
    {s : System} (i : ℕ) → IsMapped s → is_kept (s.phase i) ≡ true → i < s.server.next_conn_id
kept_below {s} i h k = elim (le_or_lt s.server.next_conn_id i) [
  | inl above ↦ absurd (true≢false (sym k ∙ ap is_kept (h.unused i above)))
  | inr below ↦ below
]

-- Two connections that were accepted have different names.
names_differ :
    {s : System} (i j : ℕ)
    → IsMapped s
    → i < s.server.next_conn_id
    → j < s.server.next_conn_id
    → i ≢ j
    → (s.conns i).name ≢ (s.conns j).name
names_differ i j h below below' ne e = ne (sym (h.named i below) ∙ ap id_of e ∙ h.named j below')

-- A step between two phases of which the map keeps both or neither.
module _ {s : System} (i : ℕ) (before after : Phase) (h : IsMapped s) (e : s.phase i ≡ before)
    (same : is_kept before ≡ is_kept after) (there : before ≢ absent) where
  still_kept : (j : ℕ) → is_kept (put s.phase i after j) ≡ is_kept (s.phase j)
  still_kept j = elim (eq_or_ne i j) [
    | inl this ↦ rw⁻¹ this (ap is_kept (put_self s.phase i after) ∙ sym same ∙ sym (ap is_kept e))
    | inr apart ↦ ap is_kept (put_ne s.phase i after j apart)
  ]

  stays-IsMapped : IsMapped (record s { phase = put s.phase i after })
  stays-IsMapped = record {
    unused = λ j above. elim (eq_or_ne i j) [
      | inl this ↦ absurd (there (sym e ∙ h.unused i (omega arith)))
      | inr apart ↦ put_ne s.phase i after j apart ∙ h.unused j above
    ];
    named = h.named;
    kept = λ j k. h.kept j (sym (still_kept j) ∙ k);
    only = λ key conn found.
        let (j, k, e', e'') = h.only key conn found in (j, still_kept j ∙ k, e', e'');
  }

taken_in-IsMapped :
    {s : System} (fd : ℕ) (local peer : InetAddress) (loop : ℕ) (pool : EventLoopThreadPool)
    → s.server.next_conn_id < 2 ^ 31
    → IsMapped s
    → IsMapped (taken_in s (new_connection s.server fd local peer loop) pool)
taken_in-IsMapped {s} fd local peer loop pool small h = record {
  unused = λ j above.
      let beyond : suc n ≤ j = rw⁻¹ next_id above in
      put_ne s.phase n accepted j (λ e. absurd (omega arith)) ∙ h.unused j (omega arith);
  named = λ j below. named j (rw next_id at below);
  kept = λ j k. elim (eq_or_ne n j) [
    | inl new ↦
        rw⁻¹ new
          (rw (put_self s.conns n conn) (find-insert_self conn.name conn s.server.connection_map))
    | inr old ↦
        let k' = sym (ap is_kept (put_ne s.phase n accepted j old)) ∙ k in
        rw (put_ne s.conns n conn j old) (
          find-insert_ne conn.name (s.conns j).name conn s.server.connection_map
            (fresh_name j (kept_below j h k'))
          ∙ h.kept j k')
  ];
  only = only;
}
  where
    n : ℕ
    n = s.server.next_conn_id

    next_id : (n + 1) % 2 ^ 32 ≡ suc n
    next_id = omega arith

    conn : Connection
    conn = new_connection s.server fd local peer loop

    id_new : id_of conn.name ≡ n
    id_new = id_of-connection_name n fd local peer small

    fresh_name : (j : ℕ) → j < n → conn.name ≢ (s.conns j).name
    fresh_name j below e = absurd (omega (arith, sym id_new ∙ ap id_of e ∙ h.named j below))

    named : (j : ℕ) → j < suc n → id_of (put s.conns n conn j).name ≡ j
    named j below = elim (eq_or_ne n j) [
      | inl new ↦ rw⁻¹ new (rw (put_self s.conns n conn) id_new)
      | inr old ↦ rw (put_ne s.conns n conn j old) (h.named j (omega arith))
    ]

    only :
        (key : List ℕ) (c : Connection)
        → find key (insert conn.name conn s.server.connection_map) ≡ some c
        → (i : ℕ) × (is_kept (put s.phase n accepted i) ≡ true)
          × (c ≡ put s.conns n conn i)
          × (key ≡ c.name)
    only key c found = elim (bytes_eq_or_ne conn.name key) [
      | inl new ↦
          let same : c ≡ conn =
            some_inj.0
              (sym found ∙ rw⁻¹ new (find-insert_self conn.name conn s.server.connection_map)) in
          (
            n,
            ap is_kept (put_self s.phase n accepted),
            same ∙ sym (put_self s.conns n conn),
            sym new ∙ sym (ap Connection.name same),
          )
      | inr old ↦
          let (j, k, e, e') =
            h.only key c
              (sym (find-insert_ne conn.name key conn s.server.connection_map old) ∙ found) in
          let apart : n ≢ j = λ e. absurd (omega (arith, kept_below j h k)) in
          (
            j,
            ap is_kept (put_ne s.phase n accepted j apart) ∙ k,
            e ∙ sym (put_ne s.conns n conn j apart),
            e',
          )
    ]

removed-IsMapped :
    {s : System} (i : ℕ)
    → s.phase i ≡ closing
    → IsMapped s
    → IsMapped (record s {
      server = (remove_connection_in_loop s.server (s.conns i)).0;
      phase = put s.phase i removed;
    })
unfolding remove_connection_in_loop
removed-IsMapped {s} i e h = record {
  unused = λ j above.
      let above' : s.server.next_conn_id ≤ j = above in
      put_ne s.phase i removed j (λ same. absurd (omega (arith, below))) ∙ h.unused j above';
  named = h.named;
  kept = λ j k. elim (eq_or_ne i j) [
    | inl this ↦
        let dropped : put s.phase i removed j ≡ removed = rw⁻¹ this (put_self s.phase i removed) in
        absurd (true≢false (sym k ∙ ap is_kept dropped))
    | inr other ↦
        let k' = sym (ap is_kept (put_ne s.phase i removed j other)) ∙ k in
        find-erase_ne (s.conns i).name (s.conns j).name s.server.connection_map
          (names_differ i j h below (kept_below j h k') other)
        ∙ h.kept j k'
  ];
  only = only;
}
  where
    below : i < s.server.next_conn_id
    below = kept_below i h (ap is_kept e)

    only :
        (key : List ℕ) (c : Connection)
        → find key (erase (s.conns i).name s.server.connection_map) ≡ some c
        → (j : ℕ) × (is_kept (put s.phase i removed j) ≡ true) × (c ≡ s.conns j) × (key ≡ c.name)
    only key c found = elim (bytes_eq_or_ne (s.conns i).name key) [
      | inl this ↦ absurd (
          none-ne-some c
            (sym (rw⁻¹ this (find-erase_self (s.conns i).name s.server.connection_map)) ∙ found))
      | inr other ↦
          let (j, k, e', e'') =
            h.only key c
              (sym (find-erase_ne (s.conns i).name key s.server.connection_map other) ∙ found) in
          let apart : i ≢ j = λ same.
            other (ap (λ a. (s.conns a).name) same ∙ sym (ap Connection.name e') ∙ sym e'') in
          (j, ap is_kept (put_ne s.phase i removed j apart) ∙ k, e', e'')
    ]

abbrev is_used : Phase → Bool
is_used absent = false
is_used _ = true

there : {x : Phase} → is_used x ≡ true → x ≢ absent
there k e = true≢false (sym k ∙ ap is_used e)

Step-IsMapped : {s t : System} → Step s t → IsMapped s → IsMapped t
Step-IsMapped (accepts fd local peer loop pool small found) h =
    taken_in-IsMapped fd local peer loop pool small h
Step-IsMapped (establishes i e) h = stays-IsMapped i accepted up h e refl (there refl)
Step-IsMapped (closes i e) h = stays-IsMapped i up closing h e refl (there refl)
Step-IsMapped (removes i e) h = removed-IsMapped i e h
Step-IsMapped (destroys i e) h = stays-IsMapped i removed gone h e refl (there refl)

-- From a server without connections, with fewer than 2 ^ 31 of them accepted, in every
-- interleaving of the server's loop with those of the connections: the map holds exactly the
-- connections from their acceptance to their removal, each under its own name, and the name of
-- the `i`th connection, cut to 31 bytes as it is, still tells its number, so that no connection
-- takes the place of another.
pub Reach-IsMapped :
    {start : TcpServer} {unused : Connection} {s : System}
    → start.next_conn_id ≡ 0
    → start.connection_map ≡ []
    → Reach start unused s
    → IsMapped s
unfolding find
Reach-IsMapped none_yet empty here = record {
  unused = λ i above. refl;
  named = λ i below. absurd (omega arith);
  kept = λ i k. absurd (true≢false (sym k));
  only = λ key c found. absurd (none-ne-some c (rw empty at found));
}
Reach-IsMapped none_yet empty (next r st) = Step-IsMapped st (Reach-IsMapped none_yet empty r)
