-- ===== src/Client/Handles/Disposing.antt =====
-- The connections of a client: which it keeps, and what `dispose` closes.
use rivetkit.Base.{
  ℕ, ◌+◌, ◌≤◌, ◌≡◌, refl, sym, ap, ◌∙◌, Bool, true, false, not, ◌&&◌, Option, none, some, List, [],
  ◌∷◌, ◌++◌, ◌==◌, if◌then◌else◌, lookup, lookup-insert, has, has-add, has-remove, ==→eq,
  Option-cases, Bool-cases, inl, inr, arith,
}
use mathlib.Core.Path.{subst}
use rivetkit.Client.Handles.{
  ClientOptions, ClientRaw, ConnObject, ActorHandle, new_client, opened, connect, dispose_conn,
  dispose_conns, dispose,
}

-- Whether a connection is there that is not disposed, and whether one is there that is.
abbrev pub is_live : {V : Type 0} → Option (ConnObject V) → Bool
is_live none = false
is_live (some conn) = not conn.disposed

abbrev pub is_over : {V : Type 0} → Option (ConnObject V) → Bool
is_over none = false
is_over (some conn) = conn.disposed

abbrev pub count : ℕ → List ℕ → ℕ
count a [] = 0
count a (x ∷ xs) = let rest = count a xs in if x == a then 1 + rest else rest

count-append :
    (a b : ℕ) (xs : List ℕ) → count a (xs ++ b ∷ []) ≡ count a xs + (if b == a then 1 else 0)
count-append a b [] = ground arith
count-append a b (x ∷ xs) = ground (arith, count-append a b xs)

-- The client keeps the connections that are not disposed, and disposed the others, each once; the
-- objects that come have no entry yet.
pub record IsTracked {V : Type 0} (client : ClientRaw V) : Type 0 where
  pub kept : (id : ℕ) → has id client.actor_conns ≡ is_live (lookup id client.objects)
  pub closed_once :
      (id : ℕ) → count id client.closed ≡ (if is_over (lookup id client.objects) then 1 else 0)
  pub fresh : (id : ℕ) → client.next_object ≤ id → lookup id client.objects ≡ none

connect-IsTracked :
    {V : Type 0} (handle : ActorHandle V) (client : ClientRaw V)
    → IsTracked client
    → IsTracked (connect handle client)
unfolding connect
connect-IsTracked handle client v =
    let n = client.next_object in
    record {
      kept = λ id. ground (
        arith,
        has-add id n client.actor_conns,
        lookup-insert id n (opened handle) client.objects,
        v.kept id,
        ==→eq n id,
      );
      closed_once = λ id. ground (
        arith,
        lookup-insert id n (opened handle) client.objects,
        v.closed_once id,
        ==→eq n id,
        v.fresh id,
      );
      fresh = λ id h.
          ground (arith, lookup-insert id n (opened handle) client.objects, v.fresh id, ==→eq n id);
    }

dispose_conn-IsTracked :
    {V : Type 0} (id : ℕ) (client : ClientRaw V)
    → IsTracked client
    → IsTracked (dispose_conn id client)
unfolding dispose_conn
dispose_conn-IsTracked id client v = elim (Option-cases (lookup id client.objects)) [
  | inl missing ↦ rw (missing, dispose_conn) v
  | inr (conn, there) ↦ elim (Bool-cases conn.disposed) [
    | inl over ↦ rw (there, dispose_conn) (rw over v)
    | inr live ↦
        rw (there, dispose_conn)
          (rw live (record {
            kept = λ j. ground (
              arith,
              has-remove j id client.actor_conns,
              lookup-insert j id (record conn { disposed = true }) client.objects,
              v.kept j,
            );
            closed_once = λ j. ground (
              arith,
              count-append j id client.closed,
              lookup-insert j id (record conn { disposed = true }) client.objects,
              v.closed_once j,
              ==→eq id j,
              there,
            );
            fresh = λ j h. ground (
              arith,
              lookup-insert j id (record conn { disposed = true }) client.objects,
              v.fresh j,
              ==→eq id j,
              there,
            );
          }))
  ]
]

dispose_conn_live :
    {V : Type 0} (id j : ℕ) (client : ClientRaw V)
    → is_live (lookup j (dispose_conn id client).objects)
      ≡ (is_live (lookup j client.objects) && not (id == j))
unfolding dispose_conn
dispose_conn_live id j client = elim (Option-cases (lookup id client.objects)) [
  | inl missing ↦ rw (missing, dispose_conn) (ground (arith, ==→eq id j, missing))
  | inr (conn, there) ↦ elim (Bool-cases conn.disposed) [
    | inl over ↦ rw (there, dispose_conn) (rw over (ground (arith, ==→eq id j, there, over)))
    | inr live ↦
        rw (there, dispose_conn)
          (rw live
            (ground (arith, lookup-insert j id (record conn { disposed = true }) client.objects)))
  ]
]

-- A connection that is there stays there.
abbrev pub is_there : {V : Type 0} → Option (ConnObject V) → Bool
is_there none = false
is_there (some conn) = true

dispose_conn_there :
    {V : Type 0} (id j : ℕ) (client : ClientRaw V)
    → is_there (lookup j (dispose_conn id client).objects) ≡ is_there (lookup j client.objects)
unfolding dispose_conn
dispose_conn_there id j client = elim (Option-cases (lookup id client.objects)) [
  | inl missing ↦ rw (missing, dispose_conn) refl
  | inr (conn, there) ↦ elim (Bool-cases conn.disposed) [
    | inl over ↦ rw (there, dispose_conn) (rw over refl)
    | inr live ↦
        rw (there, dispose_conn)
          (rw live (
            ground (
              arith,
              lookup-insert j id (record conn { disposed = true }) client.objects,
              ==→eq id j,
              there,
            )))
  ]
]

dispose_conns_lem :
    {V : Type 0} (ids : List ℕ) (client : ClientRaw V)
    → IsTracked client
    → IsTracked (dispose_conns ids client)
      × ((j : ℕ)
          → is_live (lookup j (dispose_conns ids client).objects)
            ≡ (is_live (lookup j client.objects) && not (has j ids)))
      × ((j : ℕ)
          → is_there (lookup j (dispose_conns ids client).objects)
            ≡ is_there (lookup j client.objects))
unfolding dispose_conns
dispose_conns_lem [] client v = (v, λ j. ground arith, λ j. refl)
dispose_conns_lem (id ∷ ids) client v =
    let (kept, live, there) =
      dispose_conns_lem ids (dispose_conn id client) (dispose_conn-IsTracked id client v) in
    (
      kept,
      λ j. live j ∙ ground (arith, dispose_conn_live id j client),
      λ j. there j ∙ dispose_conn_there id j client,
    )

disposed-IsTracked :
    {V : Type 0} (client : ClientRaw V)
    → IsTracked client
    → IsTracked (record client { disposed = true })
disposed-IsTracked client v = record { kept = v.kept; closed_once = v.closed_once; fresh = v.fresh }

dispose_first :
    {V : Type 0} (client : ClientRaw V)
    → client.disposed ≡ false
    → dispose client ≡ dispose_conns client.actor_conns (record client { disposed = true })
unfolding dispose
dispose_first client h =
    ap
      (λ b.
        if b then client else dispose_conns client.actor_conns (record client { disposed = true }))
      h

dispose_again :
    {V : Type 0} (client : ClientRaw V) → client.disposed ≡ true → dispose client ≡ client
unfolding dispose
dispose_again client h =
    ap
      (λ b.
        if b then client else dispose_conns client.actor_conns (record client { disposed = true }))
      h

dispose-IsTracked :
    {V : Type 0} (client : ClientRaw V) → IsTracked client → IsTracked (dispose client)
dispose-IsTracked client v = elim (Bool-cases client.disposed) [
  | inl over ↦ subst IsTracked (sym (dispose_again client over)) v
  | inr live ↦
      subst IsTracked (sym (dispose_first client live))
        (dispose_conns_lem client.actor_conns (record client { disposed = true })
          (disposed-IsTracked client v)).0
]

dispose_conn_disposed :
    {V : Type 0} (id : ℕ) (client : ClientRaw V)
    → (dispose_conn id client).disposed ≡ client.disposed
unfolding dispose_conn
dispose_conn_disposed id client = ground arith

dispose_conns_disposed :
    {V : Type 0} (ids : List ℕ) (client : ClientRaw V)
    → (dispose_conns ids client).disposed ≡ client.disposed
unfolding dispose_conns
dispose_conns_disposed [] client = refl
dispose_conns_disposed (id ∷ ids) client =
    dispose_conns_disposed ids (dispose_conn id client) ∙ dispose_conn_disposed id client

-- What is there and not live was disposed.
over_there : {V : Type 0} (o : Option (ConnObject V)) → is_live o ≡ false → is_over o ≡ is_there o
over_there none h = refl
over_there (some conn) h = ground arith

-- The steps of a client: a handle connects, a connection is disposed, and so is the client.
pub data Step {V : Type 0} : ClientRaw V → ClientRaw V → Type 0 where
  connects : (handle : ActorHandle V) (client : ClientRaw V) → Step client (connect handle client)
  disposes_conn : (id : ℕ) (client : ClientRaw V) → Step client (dispose_conn id client)
  disposes : (client : ClientRaw V) → Step client (dispose client)

pub data Reach {V : Type 0} (opts : ClientOptions) : ClientRaw V → Type 0 where
  start : Reach opts (new_client opts)
  next : {c d : ClientRaw V} → Reach opts c → Step c d → Reach opts d

Step-IsTracked : {V : Type 0} {c d : ClientRaw V} → Step c d → IsTracked c → IsTracked d
Step-IsTracked (connects handle c) v = connect-IsTracked handle c v
Step-IsTracked (disposes_conn id c) v = dispose_conn-IsTracked id c v
Step-IsTracked (disposes c) v = dispose-IsTracked c v

-- In every state that a client reaches it keeps just the connections that are not disposed, each
-- of the others was disposed once, and no object is there yet under the identifiers to come.
pub Reach-IsTracked :
    {V : Type 0} (opts : ClientOptions) (client : ClientRaw V)
    → Reach opts client
    → IsTracked client
Reach-IsTracked opts client start =
    unfold new_client in
    record { kept = λ id. refl; closed_once = λ id. refl; fresh = λ id h. refl }
Reach-IsTracked opts client (next r step) = Step-IsTracked step (Reach-IsTracked opts _ r)

and_not : {b c : Bool} → b ≡ c → (c && not b) ≡ false
and_not h = ground (arith, h)

-- A client in a reachable state that is disposed for the first time is left with no connection,
-- and each that it ever opened is disposed once; a connection that a handle opens after that stays
-- as it is when the client is disposed again.
pub dispose_lem :
    {V : Type 0} (opts : ClientOptions) (client : ClientRaw V)
    → Reach opts client
    → client.disposed ≡ false
    → ((id : ℕ)
        → (has id (dispose client).actor_conns ≡ false)
          × (count id (dispose client).closed
              ≡ (if is_there (lookup id client.objects) then 1 else 0)))
      × ((handle : ActorHandle V)
          → dispose (connect handle (dispose client)) ≡ connect handle (dispose client))
dispose_lem opts client r h =
    let v = Reach-IsTracked opts client r in
    let begun = record client { disposed = true } in
    let (kept, live, there) =
      dispose_conns_lem client.actor_conns begun (disposed-IsTracked client v) in
    let dead = λ (id : ℕ). live id ∙ and_not (v.kept id) in
    let gone = λ (id : ℕ). kept.kept id ∙ dead id in
    rw (dispose_first client h) (
      λ id. (
        gone id,
        kept.closed_once id
            ∙ ap (λ b. if b then 1 else 0)
                (over_there (lookup id (dispose_conns client.actor_conns begun).objects) (dead id)
                  ∙ there id),
      ),
      λ handle.
          dispose_again (connect handle (dispose_conns client.actor_conns begun))
            (unfold connect in dispose_conns_disposed client.actor_conns begun),
    )
