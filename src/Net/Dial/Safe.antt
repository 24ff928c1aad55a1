-- ===== src/Net/Dial/Safe.antt =====
-- What the dialer connects to.
use wachd.Base.{
  Bool, true, false, ◌&&◌, List, [], ◌∷◌, ◌++◌, some, any, ok, is_nil, ◌≡◌, ◌↔◌, ◌⊎◌, refl, arith,
  Bool-cases, inl, inr, ap, sym,
}
use wachd.Net.{Addr}
use wachd.Net.Private.{is_blocked_ip}
use wachd.Net.Dial.{Network, Host, resolve, is_compatible, dial_each, dial_resolved, dial_context}

-- The first list is the second one with some of its entries left out.
pub data Within : List Addr → List Addr → Type 0 where
  stop : {ips : List Addr} → Within [] ips
  keep : {ip : Addr} {xs ips : List Addr} → Within xs ips → Within (ip ∷ xs) (ip ∷ ips)
  drop : {ip : Addr} {xs ips : List Addr} → Within xs ips → Within xs (ip ∷ ips)

module _ (dial : Addr → Bool) (network : Network) where
  dial_each-Within :
      (tried : Bool) (ips : List Addr) → Within (dial_each dial network tried ips).1 ips
  unfolding dial_each
  dial_each-Within tried [] = stop
  dial_each-Within tried (ip ∷ ips) = elim (Bool-cases (is_compatible network ip)) [
    | inr other ↦ rw other (drop (dial_each-Within tried ips))
    | inl fits ↦ elim (Bool-cases (dial ip)) [
      | inl up ↦ rw (fits, up) (keep stop)
      | inr down ↦ rw (fits, down) (keep (dial_each-Within true ips))
    ]
  ]

  -- A host's addresses are dialed in their order, each at most as often as the lookup gave it, and none
  -- of them is dialed if one of them is blocked.
  pub dial_context-Within :
      (host : Host) {ips : List Addr}
      → resolve host ≡ ok ips
      → Within (dial_context dial network (some host)).1 ips
        × ((any is_blocked_ip ips ≡ false) ⊎ ((dial_context dial network (some host)).1 ≡ []))
  unfolding dial_context dial_resolved
  dial_context-Within host {ips} e = rw e (elim (Bool-cases (is_nil ips)) [
    | inl empty ↦ rw empty (stop, inr refl)
    | inr full ↦ elim (Bool-cases (any is_blocked_ip ips)) [
      | inl bad ↦ rw (full, bad) (stop, inr refl)
      | inr good ↦ rw (full, good) (dial_each-Within false ips, inl refl)
    ]
  ])

  -- The address answers on the network, and none before it in the list does.
  abbrev pub Answers : Addr → Type 0
  Answers ip = (is_compatible network ip && dial ip) ≡ true

  abbrev pub IsFirst : Addr → List Addr → Type 0
  IsFirst ip ips =
      (before : List Addr) × (after : List Addr) × (ips ≡ before ++ ip ∷ after)
      × (any (λ x. is_compatible network x && dial x) before ≡ false)
      × Answers ip

  dial_each-found :
      (tried : Bool) (ips : List Addr) {ip : Addr}
      → (dial_each dial network tried ips).0 ≡ ok ip
      → IsFirst ip ips
  unfolding dial_each
  dial_each-found tried [] e = absurd (ground arith)
  dial_each-found tried (x ∷ ips) {ip} e = elim (Bool-cases (is_compatible network x)) [
    | inr other ↦
        let (before, after, parts, none_before, up) =
          dial_each-found tried ips {ip = ip} (rw other at e) in
        (x ∷ before, after, ap (λ l. x ∷ l) parts, ground arith, up)
    | inl fits ↦ elim (Bool-cases (dial x)) [
      | inl up ↦
          let same : x ≡ ip = ground (arith, rw (fits, up) at e) in
          ([], ips, ap (λ y. y ∷ ips) same, refl, rw (sym same) (ground arith))
      | inr down ↦
          let (before, after, parts, none_before, up) =
            dial_each-found true ips {ip = ip} (rw (fits, down) at e) in
          (x ∷ before, after, ap (λ l. x ∷ l) parts, ground arith, up)
    ]
  ]

  dial_each-first :
      (tried : Bool) (before after : List Addr) (ip : Addr)
      → any (λ x. is_compatible network x && dial x) before ≡ false
      → Answers ip
      → (dial_each dial network tried (before ++ ip ∷ after)).0 ≡ ok ip
  unfolding dial_each
  dial_each-first tried [] after ip none_before up = ground arith
  dial_each-first tried (x ∷ before) after ip none_before up =
      ground (arith, dial_each-first tried before after ip, dial_each-first true before after ip)

  not_nil : (ip : Addr) (ips : List Addr) → IsFirst ip ips → is_nil ips ≡ true → ⊥
  not_nil ip ips ([], after, parts, free, up) empty = ground (arith, rw parts at empty)
  not_nil ip ips (x ∷ before, after, parts, free, up) empty = ground (arith, rw parts at empty)

  -- The dialer connects to an address exactly when the lookup gives no blocked address and this is the
  -- first one that the network allows and that answers.
  pub dial_context-IsFirst :
      (host : Host) {ips : List Addr} (ip : Addr)
      → resolve host ≡ ok ips
      → ((dial_context dial network (some host)).0 ≡ ok ip)
        ↔ ((any is_blocked_ip ips ≡ false) × IsFirst ip ips)
  unfolding dial_context dial_resolved
  dial_context-IsFirst host {ips} ip e = rw e (elim (Bool-cases (is_nil ips)) [
    | inl empty ↦ rw empty (ground arith, λ (good, first). absurd (not_nil ip ips first empty))
    | inr full ↦ elim (Bool-cases (any is_blocked_ip ips)) [
      | inl bad ↦ rw (full, bad) (ground arith)
      | inr good ↦
          rw (full, good)
            (
              λ connected. (refl, dial_each-found false ips {ip = ip} connected),
              λ (same, (before, after, parts, none_before, up)).
                  rw parts (dial_each-first false before after ip none_before up),
            )
    ]
  ])
