-- ===== src/Greylist/Ip.antt =====
-- The addresses of `std::net::IpAddr` and the tests on them that detection.rs makes. How an address
-- is read from a text and printed is a parameter of what uses it.
use Prim.Native.Nat.{bit_and}
use hotchkiss_io.Base.{Bool, List, any, arith, false, leb, true, ℕ, ◌&&◌, ◌==◌, ◌||◌, ◌↔◌, ◌≡◌}

pub data IpAddr : Type 0 where
  v4 : (a b c d : ℕ) → IpAddr
  v6 : (a b c d e f g h : ℕ) → IpAddr

unfoldable pub same_ip : IpAddr → IpAddr → Bool
same_ip (v4 a b c d) (v4 a' b' c' d') = a == a' && (b == b' && (c == c' && d == d'))
same_ip (v6 a b c d e f g h) (v6 a' b' c' d' e' f' g' h') =
    a == a' && (b == b' && (c == c' && (d == d' && (e == e' && (f == f' && (g == g' && h == h'))))))
same_ip _ _ = false

pub same_ip_iff : (i j : IpAddr) → (same_ip i j ≡ true) ↔ (i ≡ j)
unfolding same_ip
same_ip_iff (v4 a b c d) (v4 a' b' c' d') = ground arith
same_ip_iff (v6 a b c d e f g h) (v6 a' b' c' d' e' f' g' h') = ground arith
same_ip_iff _ _ = ground arith

unfoldable pub ips_contain : List IpAddr → IpAddr → Bool
unfolding same_ip
ips_contain ips ip = any (λ i. same_ip i ip) ips

-- `is_loopback`, `is_unspecified`
unfoldable pub is_loopback : IpAddr → Bool
is_loopback (v4 a b c d) = a == 127
is_loopback (v6 a b c d e f g h) =
    a == 0 && (b == 0 && (c == 0 && (d == 0 && (e == 0 && (f == 0 && (g == 0 && h == 1))))))

unfoldable pub is_unspecified : IpAddr → Bool
is_unspecified (v4 a b c d) = a == 0 && (b == 0 && (c == 0 && d == 0))
is_unspecified (v6 a b c d e f g h) =
    a == 0 && (b == 0 && (c == 0 && (d == 0 && (e == 0 && (f == 0 && (g == 0 && h == 0))))))

-- Ipv4Addr::is_private is 10/8, 172.16/12 and 192.168/16; is_link_local is 169.254/16.
unfoldable pub is_private_scope : IpAddr → Bool
is_private_scope (v4 a b c d) =
    (a == 10 || ((a == 172 && (leb 16 b && leb b 31)) || (a == 192 && b == 168)))
    || (a == 169 && b == 254)
is_private_scope (v6 a b c d e f g h) = bit_and a 0xfe00 == 0xfc00 || bit_and a 0xffc0 == 0xfe80
