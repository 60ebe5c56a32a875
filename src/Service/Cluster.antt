-- ===== src/Service/Cluster.antt =====
-- service/async/event_delegate.go: the servers of a cluster and the shards that each is assigned. The
-- hash ring of serialx/hashring is an interface; members come and go as events, and the JSON of a
-- member's meta data is its value.
pub mod Routing
use xdb.Prelude.{
  ℕ, zero, suc, ◌+◌, Bool, true, false, List, [], ◌∷◌, Option, none, some, Error, Result, ok, err,
  panic, ◌>>=◌, ite, GoString, string_discrete,
}
use xdb.DataModels.StateIds.Decimal.{format_int}
use xdb.Service.Shards.{AsyncService, re_balance}

-- What the code calls of hashring
pub record HashRing (Ring : Type 0) : Type 0 where
  pub new : List GoString → Ring
  pub add_node : Ring → GoString → Ring
  pub remove_node : Ring → GoString → Ring
  pub get_node : Ring → GoString → Option GoString

pub data ServerType : Type 0 where
  server_type_api server_type_async : ServerType

-- ClusterDelegateMetaData
pub record ClusterDelegateMetaData : Type 0 where
  pub server_type : ServerType
  pub server_address : GoString

pub record ClusterEventDelegate (Ring : Type 0) : Type 0 where
  pub consistent : Option Ring
  pub shard : ℕ
  pub server_address : GoString
  pub async_service : Option AsyncService

module _ {Ring : Type 0} (h : HashRing Ring) where
  -- GetAsyncServerAddressFor; a ring that is nil is a panic, one that finds no node ends the server.
  abbrev pub found_or_fatal : Option GoString → Result GoString
  found_or_fatal none = err panic
  found_or_fatal (some node) = ok node

  abbrev pub get_async_server_address_for : Option Ring → ℕ → Result GoString
  get_async_server_address_for none shard_id = err panic
  get_async_server_address_for (some ring) shard_id =
      found_or_fatal (h.get_node ring (format_int shard_id))

  -- The loop of asyncServerReBalance, from the shard `i` on
  unfoldable pub assigned_from : Option Ring → GoString → ℕ → ℕ → Result (List ℕ)
  unfolding string_discrete
  assigned_from ring address i zero = ok []
  assigned_from ring address i (suc n) = do
    node ← get_async_server_address_for ring i
    rest ← assigned_from ring address (i + 1) n
    ok (ite (string_discrete node address) (i ∷ rest) rest)

  -- asyncServerReBalance
  unfoldable pub async_server_re_balance :
      ℕ → ClusterEventDelegate Ring → AsyncService → Result AsyncService
  unfolding assigned_from re_balance
  async_server_re_balance made d a = do
    ids ← assigned_from d.consistent d.server_address 0 d.shard
    re_balance made ids a

  abbrev pub re_balance_if :
      ℕ → ClusterEventDelegate Ring → Option AsyncService → Result (ClusterEventDelegate Ring)
  re_balance_if made d none = ok d
  re_balance_if made d (some a) = do
    a' ← async_server_re_balance made d a
    ok (record d { async_service = some a' })

  abbrev pub joined_by : Option Ring → GoString → Ring
  joined_by none address = h.new (address ∷ [])
  joined_by (some ring) address = h.add_node ring address

  abbrev pub left_by : Option Ring → GoString → Option Ring
  left_by none address = none
  left_by (some ring) address = some (h.remove_node ring address)

  -- NotifyJoin
  abbrev pub join_as :
      ServerType → ℕ → GoString → ClusterEventDelegate Ring → Result (ClusterEventDelegate Ring)
  join_as server_type_api made address d = ok d
  join_as server_type_async made address d =
      re_balance_if made (record d { consistent = some (joined_by d.consistent address) })
        d.async_service

  unfoldable pub notify_join :
      ℕ → ClusterDelegateMetaData → ClusterEventDelegate Ring → Result (ClusterEventDelegate Ring)
  unfolding async_server_re_balance
  notify_join made meta d = join_as meta.server_type made meta.server_address d

  -- NotifyLeave
  abbrev pub leave_as :
      ServerType → ℕ → GoString → ClusterEventDelegate Ring → Result (ClusterEventDelegate Ring)
  leave_as server_type_api made address d = ok d
  leave_as server_type_async made address d =
      re_balance_if made (record d { consistent = left_by d.consistent address }) d.async_service

  unfoldable pub notify_leave :
      ℕ → ClusterDelegateMetaData → ClusterEventDelegate Ring → Result (ClusterEventDelegate Ring)
  unfolding async_server_re_balance
  notify_leave made meta d = leave_as meta.server_type made meta.server_address d
