-- ===== src/Examples/Cluster.antt =====
-- A cluster of two servers and twelve shards: one server has the shards of one digit.
use xdb.Prelude.{
  ℕ, false, List, [], ◌∷◌, Option, none, some, ok, ◌≡◌, refl, if◌then◌else◌, ltb, length, GoString,
  codes, string_discrete, ite,
}
use xdb.Service.Shards.{AsyncService}
use xdb.Service.Shards.Steps.{InStep}
use xdb.Service.Cluster.{
  HashRing, ClusterEventDelegate, get_async_server_address_for, async_server_re_balance,
}
use xdb.Service.Cluster.Routing.{serves, owns, async_server_re_balance-routes}
use xdb.Examples.Shards.{two_shards, two_shards-InStep}

abbrev node_of : List GoString → GoString → Option GoString
node_of [] key = none
node_of (x ∷ []) key = some x
node_of (x ∷ y ∷ _) key = some (if ltb (length key) 2 then x else y)

abbrev without : List GoString → GoString → List GoString
without [] y = []
without (x ∷ xs) y = let rest = without xs y in ite (string_discrete x y) rest (x ∷ rest)

abbrev ring : HashRing (List GoString)
ring = record {
  new = λ nodes. nodes;
  add_node = λ nodes node. node ∷ nodes;
  remove_node = without;
  get_node = node_of;
}

abbrev servers : List GoString
servers = codes "http://a" ∷ codes "http://b" ∷ []

abbrev server : ClusterEventDelegate (List GoString)
server = record {
  consistent = some servers;
  shard = 12;
  server_address = codes "http://b";
  async_service = some two_shards;
}

routes_example :
    (a' : AsyncService) × (async_server_re_balance ring 8 server two_shards ≡ ok a')
    × InStep a'
    × ((s : ℕ)
        → owns a' s ≡ (
            if ltb s 12
            then serves (get_async_server_address_for ring (some servers) s) (codes "http://b")
            else false))
routes_example =
    async_server_re_balance-routes ring servers server two_shards 8 refl (λ s. (_, refl))
      two_shards-InStep
