-- ===== src/Util/Sharding/Tests.antt =====
-- util/shard.ts and almond/shard.ts: some users.
use genie_cloud.Base.{◌≡◌, refl}
use genie_cloud.Util.Sharding.{shard, user_to_shard_id}

shards : (shard 1 4 ≡ 1) × (shard 2 4 ≡ 2) × (user_to_shard_id 4 7 ≡ 3)
unfolding shard user_to_shard_id
shards = (refl, refl, refl)
