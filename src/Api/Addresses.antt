-- ===== src/Api/Addresses.antt =====
-- Setting and reading the addresses through src/abi/api.c.
use mega_net.Base.{Mem, offset, ltb, if◌then◌else◌, ℕ, ◌+◌, ◌-◌, ◌<◌, ◌≡◌, refl, ap, ◌∙◌, arith}
use mega_net.Api.Blocks.{give_blk-inside, fetch_blk-inside}
use mega_net.Api.Config.{api_set_ip, ip_blk_from, api_get_ip}
use mega_net.Api.State.{Machine, ptr28, arg_ptr, fetch_blk}
use mega_net.Api.Table.{entry_set_ip, entry_get_ip, World, call}
use mega_net.Net.Receive.{net_set_ip}
use mega_net.Net.State.{Net}

-- The block of the three addresses.
ip_blk_lem :
    (net : Net) (b : Mem) (j : ℕ)
    → j < 12
    → ip_blk_from 4 0 net b j
      ≡ (if ltb j 4 then net.ip j else if ltb j 8 then net.mask (j - 4) else net.gw (j - 8))
unfolding ip_blk_from
ip_blk_lem net b j h = ground arith

-- The addresses that a block of twelve bytes sets, in the block that reads them.
ip_blk-set :
    (net : Net) (b c : Mem) (j : ℕ)
    → j < 12
    → ip_blk_from 4 0 (net_set_ip net c (offset c 4) (offset c 8)) b j ≡ c j
unfolding net_set_ip
ip_blk-set net b c j h = ground (arith, ip_blk_lem (net_set_ip net c (offset c 4) (offset c 8)) b j)

get_ip-inside :
    (m : Machine) (j : ℕ)
    → j < 12
    → (api_get_ip m).sys.pool (arg_ptr m + j) ≡ ip_blk_from 4 0 m.sys.net m.blk j
unfolding api_get_ip arg_ptr
get_ip-inside m j h =
    give_blk-inside (record m { blk = ip_blk_from 4 0 m.sys.net m.blk }) 0 12 j (omega arith) h

net-set_ip :
    (m : Machine)
    → let b = (fetch_blk m 12).blk in
      (api_set_ip m).sys.net ≡ net_set_ip m.sys.net b (offset b 4) (offset b 8)
unfolding api_set_ip fetch_blk
net-set_ip m = refl

pub get_ip-set_ip :
    (v w : World) (a x y z a' x' y' z' : ℕ) (m : Machine) (j : ℕ)
    → j < 12
    → (call entry_get_ip w a' x' y' z' (call entry_set_ip v a x y z m)).sys.pool
        (ptr28 a' x' y' + j)
      ≡ m.sys.pool (ptr28 a x y + j)
unfolding call arg_ptr
get_ip-set_ip v w a x y z a' x' y' z' m j h =
    let m0 : Machine = record m { a = a; x = x; y = y; z = z } in
    let m1 : Machine = record (api_set_ip m0) { a = a'; x = x'; y = y'; z = z' } in
    get_ip-inside m1 j h
    ∙ ap (λ (n : Net). ip_blk_from 4 0 n m1.blk j) (net-set_ip m0)
    ∙ ip_blk-set m.sys.net m1.blk (fetch_blk m0 12).blk j h
    ∙ fetch_blk-inside m0 12 j h
