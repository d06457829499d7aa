-- ===== src/Lookup/Tests.antt =====
-- Two hosts, looked up one after the other.
use cpe464_program.Common.{
  List, Option, [], codes, get, none, ok, refl, replicate, return, some, take, ℕ, ◌++◌, ◌>>=◌, ◌∷◌,
  ◌≡◌,
}
use cpe464_program.Lookup.{get_ip_address_string6, gethostbyname4, gethostbyname6}
use cpe464_program.Socket.{Grant, Kernel, SockAddr, any_address, get_addr_info}

abbrev pub cleared : SockAddr
cleared = record { family = 10; port = 0; addr = any_address }

abbrev pub answer : ℕ → Grant
answer b = record {
  value = 0;
  address = record { family = 10; port = 0; addr = replicate 16 b };
  bytes = [];
}

abbrev pub kernel : List (Option Grant) → Kernel
kernel replies = record { replies = replies; calls = []; printed = []; ip_address = replicate 46 0 }

-- A lookup for IPv4 after one for IPv6 replaces four bytes of the array.
mixed :
    (gethostbyname6 cleared (codes "a") none >>= λ r.
    gethostbyname4 cleared (codes "a") none >>= λ q. get >>= λ k. return (take 5 k.ip_address))
      (kernel (some (answer 1) ∷ some (answer 2) ∷ []))
    ≡ ok (
      2 ∷ 2 ∷ 2 ∷ 2 ∷ 1 ∷ [],
      record (kernel []) {
        calls = get_addr_info (codes "a") 24 10 ∷ get_addr_info (codes "a") 0 2 ∷ [];
        ip_address = replicate 4 2 ++ replicate 12 1 ++ replicate 30 0;
      },
    )
unfolding gethostbyname6 gethostbyname4
mixed = refl

not_found : get_ip_address_string6 (λ family bytes. bytes) none ≡ codes "(IP not found)"
unfolding get_ip_address_string6
not_found = refl
