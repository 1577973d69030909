-- ===== src/Util/Sharding.antt =====
-- util/shard.ts and almond/shard.ts: the shard of a user.
mod Tests
use genie_cloud.Base.{ℕ, ◌+◌, ◌*◌, ◌%◌}

unfoldable pub shard : ℕ → ℕ → ℕ
shard user_id n_shards = ((user_id + 33) * 7 + 33) * 7 % n_shards

-- `userToShardId`; the number of shards is of the configuration.
unfoldable pub user_to_shard_id : ℕ → ℕ → ℕ
user_to_shard_id n_shards user_id = user_id % n_shards
