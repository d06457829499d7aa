-- ===== src/Lookup/Laws.antt =====
-- gethostbyname.c: what a lookup returns, and what it does to the struct and the static array.
use cpe464_program.Common.{
  List, M, Option, [], arith, false, length, none, ok, refl, return, some, sym, take_of_length_le,
  true, write_at, write_at_of_length, ℕ, ◌++◌, ◌>>=◌, ◌∙◌, ◌∷◌, ◌≡◌,
}
use cpe464_program.Lookup.{gethostbyname6, mapped_and_all}
use cpe464_program.Socket.{Call, Grant, Kernel, SockAddr, af_inet6, get_addr_info}

-- An IPv6 address of the right size.
abbrev pub IsAddress6 : SockAddr → Type 0
IsAddress6 a = length a.addr ≡ 16

abbrev pub lookup_call : List ℕ → Call
lookup_call host_name = get_addr_info host_name mapped_and_all af_inet6

-- The state after a lookup that the resolver answers by `g`.
abbrev pub looked_up : List ℕ → Grant → List (Option Grant) → Kernel → Kernel
looked_up host_name g rest k = record k {
  replies = rest;
  calls = k.calls ++ (lookup_call host_name ∷ []);
  ip_address = write_at 0 g.address.addr k.ip_address;
}

module _ (temp : SockAddr) (host_name : List ℕ) (a : SockAddr) (k : Kernel)
    (rest : List (Option Grant)) where
  pub gethostbyname6_finds :
      (g : Grant)
      → IsAddress6 a
      → IsAddress6 g.address
      → k.replies ≡ some g ∷ rest
      → gethostbyname6 temp host_name (some a) k
        ≡ ok ((true, record a { addr = g.address.addr }), looked_up host_name g rest k)
  unfolding gethostbyname6
  gethostbyname6_finds g six found e =
      rw (e, take_of_length_le 16 g.address.addr (omega (arith, found)))
        (rw (write_at_of_length g.address.addr a.addr (found ∙ sym six))
          (rw (take_of_length_le 16 g.address.addr (omega (arith, found))) refl))

  pub gethostbyname6_fails :
      k.replies ≡ none ∷ rest
      → gethostbyname6 temp host_name (some a) k
        ≡ ok (
          (false, a),
          record k { replies = rest; calls = k.calls ++ (lookup_call host_name ∷ []) },
        )
  unfolding gethostbyname6
  gethostbyname6_fails e = rw e refl

-- Two lookups, one after the other.
abbrev pub lookup_both :
    SockAddr → List ℕ → SockAddr → List ℕ → SockAddr → M Kernel (SockAddr × SockAddr)
lookup_both temp first_host a second_host b = do
  r ← gethostbyname6 temp first_host (some a)
  q ← gethostbyname6 temp second_host (some b)
  return (r.1, q.1)

-- The state after both.
abbrev pub both_looked_up : List ℕ → Grant → List ℕ → Grant → List (Option Grant) → Kernel → Kernel
both_looked_up first_host g second_host h rest k =
    looked_up second_host h rest (looked_up first_host g (some h ∷ rest) k)
