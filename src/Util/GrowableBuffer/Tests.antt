-- ===== src/Util/GrowableBuffer/Tests.antt =====
-- The buffer on concrete writes, and its theorems at concrete inputs.
use genie_cloud.Base.{◌≡◌, refl, [], ◌∷◌, err, arith}
use genie_cloud.Util.GrowableBuffer.{
  new, ensure_size, find_buffer, locate, poke, write_uint16, write_buffer, out_of_range,
}
use genie_cloud.Util.GrowableBuffer.Poking.{new-Represents}
use genie_cloud.Util.GrowableBuffer.Contents.{Writes, write_at}
use genie_cloud.Util.GrowableBuffer.Wider.{write_buffer-Writes}

write_buffer-Writes_example : Writes (write_buffer (1 ∷ 2 ∷ []) 3) new (write_at [] 3 (1 ∷ 2 ∷ []))
write_buffer-Writes_example =
    write_buffer-Writes new [] (1 ∷ 2 ∷ []) 3 new-Represents (omega arith) (omega arith)

-- The value 65536 passes the check of the method and is refused by the write.
too_large : (write_uint16 65536 0 new).0 ≡ err out_of_range
unfolding write_uint16 new ensure_size find_buffer locate poke
too_large = refl
