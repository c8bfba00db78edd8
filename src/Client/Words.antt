-- ===== src/Client/Words.antt =====
-- Words in network byte order: `htonl` and `ntohl`, as src/server/message.c and src/lib/libmsg.c use
-- them.
use open_dax.Base.{ℕ, ◌^◌, ◌<◌, ◌≡◌, ap, ret, arith}
use open_dax.Memory.{from_network}
use open_dax.Store.Notify.{big_endian32}

pub from_network-big_endian32 : (n : ℕ) → n < 2 ^ 32 → from_network (big_endian32 n) ≡ ret n
from_network-big_endian32 n h = ap ret (omega arith)
