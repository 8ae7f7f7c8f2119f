-- ===== src/Filters/Accepted.antt =====
-- dht_filters.go: which peers the filters accept.
use go_libp2p_kad_dht.Prelude.{
  ℕ, ◌==◌, ltb, if◌then◌else◌, Option, none, some, List, [], ◌∷◌, Bool, true, false, ◌&&◌, ◌||◌,
  not, ◌≡◌, refl, sym, ◌∙◌, inl, inr, arith, length, tally, Bool-cases, if_false, suc,
}
use go_libp2p_kad_dht.Network.{Addr, AddrInfo}
use go_libp2p_kad_dht.Filters.{
  Addresses, is_public_ip, is_public_addr, is_private_ip, is_private_addr, has_public_addr,
  public_query_filter, any_public, public_routing_table_filter,
}

-- A public address that is not a relay's.
abbrev pub is_open : Addresses → Addr → Bool
is_open e a = not (e.is_relay a) && is_public_addr e a

has_public_addr_iff :
    (e : Addresses) (found : Bool) (as' : List Addr)
    → has_public_addr e found as' ≡ (found || ltb 0 (tally (is_open e) as'))
unfolding has_public_addr
has_public_addr_iff e found [] = ground arith
has_public_addr_iff e found (a ∷ rest) = elim (Bool-cases (is_open e a)) [
  | inl o ↦ simp o (has_public_addr_iff e true rest ∙ ground arith)
  | inr o ↦ simp o (has_public_addr_iff e found rest ∙ ground arith)
]

any_public_iff :
    (e : Addresses) (as' : List Addr) → any_public e as' ≡ ltb 0 (tally (is_open e) as')
unfolding any_public
any_public_iff e [] = ground arith
any_public_iff e (a ∷ rest) = elim (Bool-cases (is_open e a)) [
  | inl o ↦ simp o (ground arith)
  | inr o ↦ simp o (any_public_iff e rest ∙ ground arith)
]

not_both : (e : Addresses) (o : Option ℕ) → (is_public_ip e o && is_private_ip e o) ≡ false
not_both e none = refl
not_both e (some ip) = ground arith

-- No address is both public and private; PublicQueryFilter accepts a peer exactly when one of its addresses
-- is public and not a relay's; and for a peer with connections PublicRoutingTableFilter, on the same
-- addresses, accepts it exactly then too, and without a connection never.
pub public_filters_iff :
    (e : Addresses) (x : AddrInfo) (a : Addr) (num_conns : ℕ)
    → ((is_public_addr e a && is_private_addr e a) ≡ false)
      × (public_query_filter e x ≡ ltb 0 (tally (is_open e) x.addrs))
      × (public_routing_table_filter e (suc num_conns) x.addrs ≡ public_query_filter e x)
      × (public_routing_table_filter e 0 x.addrs ≡ false)
unfolding is_public_addr is_private_addr public_routing_table_filter public_query_filter
public_filters_iff e x a num_conns =
    let query = query_iff x.addrs in
    (
      not_both e (e.to_ip a),
      query,
      (if_false (suc num_conns == 0) _ _ (ground arith) ∙ any_public_iff e x.addrs) ∙ sym query,
      refl,
    )
  where
    query_iff :
        (l : List Addr)
        → (if length l == 0 then false else has_public_addr e false l) ≡ ltb 0 (tally (is_open e) l)
    query_iff [] = ground arith
    query_iff (b ∷ rest) =
        if_false (length (b ∷ rest) == 0) _ _ (ground arith)
        ∙ has_public_addr_iff e false (b ∷ rest)
