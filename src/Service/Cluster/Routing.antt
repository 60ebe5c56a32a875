-- ===== src/Service/Cluster/Routing.antt =====
-- service/async/event_delegate.go with ReBalance: a server owns the shards that requests are sent to it
-- for.
use xdb.Prelude.{
  ℕ, zero, suc, ◌+◌, Bool, true, false, ◌&&◌, List, [], ◌∷◌, Option, none, some, Result, ok, err,
  ite, if◌then◌else◌, ltb, leb, is_some, GoString, string_discrete, ℕ_discrete, nat_key, if_pos,
  if_neg, arith, ◌≡◌, ◌≢◌, refl, subst, ap, ◌∙◌,
}
use xdb.Prelude.Maps.{get}
use xdb.DataModels.StateIds.Decimal.{format_int}
use xdb.Service.Shards.{AsyncService}
use xdb.Service.Shards.Steps.{InStep}
use xdb.Service.Shards.Owning.{elem, after, re_balance-owns}
use xdb.Service.Cluster.{
  HashRing, ClusterEventDelegate, get_async_server_address_for, assigned_from,
  async_server_re_balance, found_or_fatal,
}

-- Does the address that is found name the server?
abbrev pub serves : Result GoString → GoString → Bool
serves (err _) address = false
serves (ok node) address = ite (string_discrete node address) true false

abbrev pub owns : AsyncService → ℕ → Bool
owns a s = is_some (get a.immediate_task_queue_map s)

abbrev in_range : ℕ → ℕ → ℕ → Bool
in_range i n s = leb i s && ltb s (i + n)

in_range-empty : (i s : ℕ) → in_range i 0 s ≡ false
in_range-empty i s = ground arith

in_range-first : (i n : ℕ) → in_range i (suc n) i ≡ true
in_range-first i n = ground arith

in_range-below : (i n : ℕ) → in_range (i + 1) n i ≡ false
in_range-below i n = ground arith

in_range-others : (i n s : ℕ) → i ≢ s → in_range (i + 1) n s ≡ in_range i (suc n) s
in_range-others i n s h = ground (arith, h)

in_range-all : (n s : ℕ) → in_range 0 n s ≡ ltb s n
in_range-all n s = ground arith

elem-first :
    {P : Type 0} (d : Dec P) (i : ℕ) (rest : List ℕ)
    → elem i rest ≡ false
    → elem i (ite d (i ∷ rest) rest) ≡ ite d true false
elem-first (yes p) i rest h = if_pos (ℕ_discrete i i) refl _ _
elem-first (no n) i rest h = h

elem-others :
    {P : Type 0} (d : Dec P) (i s : ℕ) (rest : List ℕ)
    → i ≢ s
    → elem s (ite d (i ∷ rest) rest) ≡ elem s rest
elem-others (yes p) i s rest n = if_neg (ℕ_discrete i s) n _ _
elem-others (no _) i s rest n = refl

module _ {Ring : Type 0} (h : HashRing Ring) (ring : Ring) where
  -- A ring with a node finds one for each shard.
  abbrev pub FindsAll : Type 0
  FindsAll = (s : ℕ) → (node : GoString) × (h.get_node ring (format_int s) ≡ some node)

  address-found : (s : ℕ) (f : FindsAll) → get_async_server_address_for h (some ring) s ≡ ok (f s).0
  address-found s f = ap (found_or_fatal h) (f s).1

  assigned_from-elem :
      (address : GoString) (f : FindsAll) (i n : ℕ)
      → (ids : List ℕ) × (assigned_from h (some ring) address i n ≡ ok ids)
        × ((s : ℕ)
            → elem s ids ≡ (
                if in_range i n s
                then serves (get_async_server_address_for h (some ring) s) address
                else false))
  unfolding assigned_from
  assigned_from-elem address f i zero = ([], refl, λ s. rw (in_range-empty i s) refl)
  assigned_from-elem address f i (suc n) =
      let (rest, found, members) = assigned_from-elem address f (i + 1) n in
      (
        ite (string_discrete (f i).0 address) (i ∷ rest) rest,
        rw (address-found i f, found) refl,
        λ s. elim (ℕ_discrete i s) [
          | yes p ↦
              subst
                (λ x. elem x (ite (string_discrete (f i).0 address) (i ∷ rest) rest) ≡ (
                  if in_range i (suc n) x
                  then serves (get_async_server_address_for h (some ring) x) address
                  else false))
                p
                (elem-first (string_discrete (f i).0 address) i rest
                    (members i ∙ rw (in_range-below i n) refl)
                  ∙ rw (in_range-first i n, address-found i f) refl)
          | no n' ↦
              elem-others (string_discrete (f i).0 address) i s rest n'
              ∙ (members s ∙ rw (in_range-others i n s n') refl)
        ],
      )

  after-owned : (b : Bool) (q : Option ℕ) (made : ℕ) → is_some (after b q made) ≡ b
  after-owned false q made = refl
  after-owned true none made = refl
  after-owned true (some q) made = refl

  -- Where the maps of shards of a server say the same, and the ring finds a node for each shard, the
  -- re-balancing after a member comes or goes succeeds and they say the same again. The server then
  -- owns just those shards of the cluster for which every member with that ring sends its requests to
  -- the server's address.
  pub async_server_re_balance-routes :
      (d : ClusterEventDelegate Ring) (a : AsyncService) (made : ℕ)
      → d.consistent ≡ some ring
      → FindsAll
      → InStep a
      → (a' : AsyncService) × (async_server_re_balance h made d a ≡ ok a')
        × InStep a'
        × ((s : ℕ)
            → owns a' s ≡ (
                if ltb s d.shard
                then serves (get_async_server_address_for h (some ring) s) d.server_address
                else false))
  unfolding async_server_re_balance
  async_server_re_balance-routes d a made is_ring f in_step =
      let (ids, assigned, members) = assigned_from-elem d.server_address f 0 d.shard in
      let (a', done, in_step', owned) = re_balance-owns made ids a in_step in
      (
        a',
        rw (is_ring, assigned) done,
        in_step',
        λ s.
            rw (owned s, after-owned (elem s ids) (get a.immediate_task_queue_map s) made)
              (members s ∙ rw (in_range-all d.shard s) refl),
      )
