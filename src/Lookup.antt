-- ===== src/Lookup.antt =====
-- gethostbyname.c: the address of a host, for IPv4 and IPv6. `getaddrinfo` is a call of the kernel's
-- script; what `inet_ntop` writes for a family and an address is an argument.
pub mod Laws
mod Tests
use cpe464_program.Common.{
  Bool, List, M, Option, codes, false, get, if◌then◌else◌, none, not, ok, return, some, take, true,
  write_at, ℕ, ◌==◌, ◌>>=◌, ◌>>◌,
}
use cpe464_program.Socket.{
  Grant, Kernel, SockAddr, af_inet, af_inet6, ask, get_addr_info, ntohs, print,
}

-- `AI_V4MAPPED | AI_ALL`.
abbrev pub mapped_and_all : ℕ
mapped_and_all = 24

abbrev pub hint_flags : ℕ → ℕ
hint_flags family = if family == af_inet then 0 else mapped_and_all

abbrev pub hint_family : ℕ → ℕ
hint_family family = if family == af_inet then af_inet else af_inet6

-- How many bytes of an address are copied.
abbrev pub addr_size : ℕ → ℕ
addr_size family = if family == af_inet then 4 else 16

-- `hostInfo` is used: its address goes into the struct, and from there into the static array.
abbrev pub keep_address : ℕ → SockAddr → Option Grant → M Kernel (Bool × SockAddr)
keep_address family a none k = ok ((false, a), k)
keep_address family a (some g) k =
    let filled = record a { addr = write_at 0 (take (addr_size family) g.address.addr) a.addr } in
    ok (
      (true, filled),
      record k { ip_address = write_at 0 (take (addr_size family) filled.addr) k.ip_address },
    )

-- `getIPAddress46`: whether the result is the static array and not NULL, and the struct afterwards.
unfoldable pub get_ip_address46 : List ℕ → SockAddr → ℕ → M Kernel (Bool × SockAddr)
unfolding ask
get_ip_address46 host_name a family =
    ask (get_addr_info host_name (hint_flags family) (hint_family family)) >>= keep_address family a

-- A struct of the caller, or else a temporary one, `temp`.
abbrev pub or_temp : SockAddr → Option SockAddr → SockAddr
or_temp temp none = temp
or_temp temp (some a) = a

unfoldable pub gethostbyname4 : SockAddr → List ℕ → Option SockAddr → M Kernel (Bool × SockAddr)
unfolding get_ip_address46
gethostbyname4 temp host_name a = get_ip_address46 host_name (or_temp temp a) af_inet

unfoldable pub gethostbyname6 : SockAddr → List ℕ → Option SockAddr → M Kernel (Bool × SockAddr)
unfolding get_ip_address46
gethostbyname6 temp host_name a = get_ip_address46 host_name (or_temp temp a) af_inet6

abbrev pub ip_not_found : List ℕ
ip_not_found = codes "(IP not found)"

module _ (inet_ntop : ℕ → List ℕ → List ℕ) where
  unfoldable pub get_ip_address_string46 : Option (List ℕ) → ℕ → List ℕ
  get_ip_address_string46 none family = ip_not_found
  get_ip_address_string46 (some ip_address) family = inet_ntop family ip_address

  unfoldable pub get_ip_address_string4 : Option (List ℕ) → List ℕ
  unfolding get_ip_address_string46
  get_ip_address_string4 ip_address = get_ip_address_string46 ip_address af_inet

  unfoldable pub get_ip_address_string6 : Option (List ℕ) → List ℕ
  unfolding get_ip_address_string46
  get_ip_address_string6 ip_address = get_ip_address_string46 ip_address af_inet6

  unfoldable pub ip_address_to_string : SockAddr → List ℕ
  ip_address_to_string a = inet_ntop af_inet6 a.addr

  unfoldable pub print_ip_info : SockAddr → M Kernel (Unit {0})
  unfolding ip_address_to_string
  print_ip_info a = print (ip_address_to_string a) (ntohs a.port)

  -- The text of the address is printed if there is one; 0 stands for the port, which is not.
  abbrev pub print_found : ℕ → Bool → M Kernel (Unit {0})
  unfolding get_ip_address_string46
  print_found family false = return tt
  print_found family true = do k ← get; print (get_ip_address_string46 (some k.ip_address) family) 0

  unfoldable pub gethostbyname_test_lookup : SockAddr → List ℕ → M Kernel (Unit {0})
  unfolding gethostbyname6 gethostbyname4 get_ip_address_string46
  gethostbyname_test_lookup temp host_name = do
    r ← gethostbyname6 temp host_name none
    print_found af_inet6 r.0
    q ← gethostbyname4 temp host_name none
    print_found af_inet q.0

  unfoldable pub gethostbyname_test : SockAddr → M Kernel (Unit {0})
  unfolding gethostbyname_test_lookup
  gethostbyname_test temp = do
    gethostbyname_test_lookup temp (codes "www.google.com")
    gethostbyname_test_lookup temp (codes "ipv6.google.com")
    gethostbyname_test_lookup temp (codes "my.calpoly.edu")
    gethostbyname_test_lookup temp (codes "does not exist")
