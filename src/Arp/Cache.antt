-- ===== src/Arp/Cache.antt =====
-- The cache of net/arp.c as a map from IP addresses to MAC addresses.
use mathlib.Core.Path.{subst}
use cool_frost.Prelude.{
  ℕ, zero, suc, ◌+◌, ◌%◌, ◌≤◌, ◌<◌, ◌≡◌, refl, sym, ap, ◌∙◌, ◌≢◌, inl, inr, true, false, Option,
  none, some, arith, ◌==◌, if◌then◌else◌, Bool-cases, Option-cases, ==_iff,
}
use cool_frost.Arp.{ArpEntry, Arp, arp_cache_size, matches, entry_from, arp_lookup, put, arp_insert}

put_self : (cache : ℕ → ArpEntry) (j : ℕ) (e : ArpEntry) → put cache j e j ≡ e
put_self cache j e = let h : (j == j) ≡ true = ground arith in rw h refl

put_other :
    (cache : ℕ → ArpEntry) (j : ℕ) (e : ArpEntry) (k : ℕ) → k ≢ j → put cache j e k ≡ cache k
put_other cache j e k ne = let h : (k == j) ≡ false = ground arith in rw h refl

module _ (ip : ℕ) where
  entry_from_here :
      (cache : ℕ → ArpEntry) (left i : ℕ)
      → matches (cache i) ip ≡ true
      → entry_from cache ip (suc left) i ≡ some i
  unfolding entry_from
  entry_from_here cache left i e = rw (entry_from, e) refl

  entry_from_later :
      (cache : ℕ → ArpEntry) (left i : ℕ)
      → matches (cache i) ip ≡ false
      → entry_from cache ip (suc left) i ≡ entry_from cache ip left (i + 1)
  unfolding entry_from
  entry_from_later cache left i e = rw (entry_from, e) refl

  -- The loop finds the first entry that matches.
  entry_from_first :
      (cache : ℕ → ArpEntry) (left i j : ℕ)
      → i ≤ j
      → j < i + left
      → matches (cache j) ip ≡ true
      → ((k : ℕ) → i ≤ k → k < j → matches (cache k) ip ≡ false)
      → entry_from cache ip left i ≡ some j
  entry_from_first cache zero i j le lt e before = absurd (omega arith)
  entry_from_first cache (suc left) i j le lt e before = elim (Bool-cases (i == j)) [
    | inl h ↦
        let at : i ≡ j = (==_iff i j).0 h in
        subst (λ m. entry_from cache ip (suc left) m ≡ some j) (sym at)
          (entry_from_here cache left j e)
    | inr h ↦
        let less : i < j = ground arith in
        entry_from_later cache left i (before i (omega arith) less)
        ∙ entry_from_first cache left (i + 1) j (omega arith) (omega arith) e
            (λ k lk hk. before k (omega arith) hk)
  ]

  -- An entry found matches, and none before it does; where none is found, none matches.
  Located : (ℕ → ArpEntry) → (left i : ℕ) → Option ℕ → Type 0
  Located cache left i none = (k : ℕ) → i ≤ k → k < i + left → matches (cache k) ip ≡ false
  Located cache left i (some j) =
      (i ≤ j)
      × (j < i + left)
      × (matches (cache j) ip ≡ true)
      × ((k : ℕ) → i ≤ k → k < j → matches (cache k) ip ≡ false)

  Located-later :
      (cache : ℕ → ArpEntry) (left i : ℕ) (r : Option ℕ)
      → matches (cache i) ip ≡ false
      → Located cache left (i + 1) r
      → Located cache (suc left) i r
  unfolding Located
  Located-later cache left i none e l = λ k lk hk. elim (Bool-cases (k == i)) [
    | inl h ↦ ap (λ m. matches (cache m) ip) ((==_iff k i).0 h) ∙ e
    | inr h ↦ l k (ground arith) (omega arith)
  ]
  Located-later cache left i (some j) e (lj, hj, m, before) = (
    omega arith,
    omega arith,
    m,
    λ k lk hk. elim (Bool-cases (k == i)) [
      | inl h ↦ ap (λ m. matches (cache m) ip) ((==_iff k i).0 h) ∙ e
      | inr h ↦ before k (ground arith) hk
    ],
  )

  Located-here :
      (cache : ℕ → ArpEntry) (left i : ℕ)
      → matches (cache i) ip ≡ true
      → Located cache (suc left) i (some i)
  unfolding Located
  Located-here cache left i e = (omega arith, omega arith, e, λ k lk hk. absurd (omega arith))

  Located-nothing : (cache : ℕ → ArpEntry) (i : ℕ) → Located cache zero i none
  unfolding Located
  Located-nothing cache i k lk hk = absurd (omega arith)

  entry_from-Located :
      (cache : ℕ → ArpEntry) (left i : ℕ) → Located cache left i (entry_from cache ip left i)
  unfolding entry_from
  entry_from-Located cache zero i = Located-nothing cache i
  entry_from-Located cache (suc left) i = elim (Bool-cases (matches (cache i) ip)) [
    | inl e ↦ rw (entry_from, e) (Located-here cache left i e)
    | inr e ↦
        rw (entry_from, e)
          (Located-later cache left i (entry_from cache ip left (i + 1)) e
            (entry_from-Located cache left (i + 1)))
  ]

  -- A write to an entry that did not match and does not is not seen.
  entry_from-put :
      (cache : ℕ → ArpEntry) (j : ℕ) (e : ArpEntry)
      → matches (cache j) ip ≡ false
      → matches e ip ≡ false
      → (left i : ℕ) → entry_from (put cache j e) ip left i ≡ entry_from cache ip left i
  unfolding entry_from
  entry_from-put cache j e old new zero i = refl
  entry_from-put cache j e old new (suc left) i =
      let alike : matches (put cache j e i) ip ≡ matches (cache i) ip = elim (Bool-cases (i == j)) [
        | inl h ↦
            ap (λ m. matches (put cache j e m) ip) ((==_iff i j).0 h)
            ∙ ap (λ x. matches x ip) (put_self cache j e)
            ∙ new
            ∙ sym old
            ∙ ap (λ m. matches (cache m) ip) (sym ((==_iff i j).0 h))
        | inr h ↦ ap (λ x. matches x ip) (put_other cache j e i (λ q. absurd (ground arith)))
      ] in
      ap (λ b. if b then some i else entry_from (put cache j e) ip left (i + 1)) alike
      ∙ ap (λ r. if matches (cache i) ip then some i else r)
          (entry_from-put cache j e old new left (i + 1))

lookup_at :
    (ip : ℕ) (cache : ℕ → ArpEntry) (i : ℕ)
    → entry_from cache ip arp_cache_size 0 ≡ some i
    → arp_lookup cache ip ≡ some (cache i).mac
unfolding arp_lookup
lookup_at ip cache i e = rw (arp_lookup, e) refl

true-false : true ≢ false
true-false e = ground arith

module _ (s : Arp) (ip mac : ℕ) where
  insert_known :
      (i : ℕ)
      → entry_from s.cache ip arp_cache_size 0 ≡ some i
      → arp_insert s ip mac ≡ record s { cache = put s.cache i (record (s.cache i) { mac = mac }) }
  unfolding arp_insert
  insert_known i e = rw (arp_insert, e) refl

  insert_new :
      entry_from s.cache ip arp_cache_size 0 ≡ none
      → arp_insert s ip mac ≡ record s {
        cache = put s.cache s.cache_next (record { ip = ip; mac = mac; valid = true });
        cache_next = (s.cache_next + 1) % arp_cache_size;
      }
  unfolding arp_insert
  insert_new e = rw (arp_insert, e) refl

  put_first :
      (i : ℕ) (e : ArpEntry)
      → i < arp_cache_size
      → matches e ip ≡ true
      → e.mac ≡ mac
      → ((k : ℕ) → k < i → matches (s.cache k) ip ≡ false)
      → arp_lookup (put s.cache i e) ip ≡ some mac
  put_first i e lt m at before =
      lookup_at ip (put s.cache i e) i (
        entry_from_first ip (put s.cache i e) arp_cache_size 0 i (omega arith) (omega arith)
          (ap (λ x. matches x ip) (put_self s.cache i e) ∙ m)
          (λ k lk hk.
            ap (λ x. matches x ip) (put_other s.cache i e k (λ q. absurd (omega arith)))
            ∙ before k hk))
      ∙ ap (λ x. some x.mac) (put_self s.cache i e)
      ∙ ap some at

  arp_lookup-arp_insert :
      s.cache_next < arp_cache_size → arp_lookup (arp_insert s ip mac).cache ip ≡ some mac
  unfolding Located
  arp_lookup-arp_insert lt = elim (Option-cases (entry_from s.cache ip arp_cache_size 0)) [
    | inl e ↦
        let l =
          subst (Located ip s.cache arp_cache_size 0) e
            (entry_from-Located ip s.cache arp_cache_size 0) in
        let new : matches (record { ip = ip; mac = mac; valid = true }) ip ≡ true = ground arith in
        ap (λ q. arp_lookup q.cache ip) (insert_new e)
        ∙ put_first s.cache_next (record { ip = ip; mac = mac; valid = true }) lt new refl
            (λ k hk. l k (omega arith) (omega arith))
    | inr (i, e) ↦
        let (lj, hj, m, before) =
          subst (Located ip s.cache arp_cache_size 0) e
            (entry_from-Located ip s.cache arp_cache_size 0) in
        ap (λ q. arp_lookup q.cache ip) (insert_known i e)
        ∙ put_first i (record (s.cache i) { mac = mac }) (omega arith) m refl
            (λ k hk. before k (omega arith) hk)
  ]

module _ (cache : ℕ → ArpEntry) (other : ℕ) where
  lookup_none : entry_from cache other arp_cache_size 0 ≡ none → arp_lookup cache other ≡ none
  unfolding arp_lookup
  lookup_none e = rw (arp_lookup, e) refl

-- An entry that does not match the address, before the write and behind it, plays no part.
arp_lookup-put :
    (cache : ℕ → ArpEntry) (other j : ℕ) (e : ArpEntry)
    → matches (cache j) other ≡ false
    → matches e other ≡ false
    → arp_lookup (put cache j e) other ≡ arp_lookup cache other
unfolding Located
arp_lookup-put cache other j e old new =
    let alike = entry_from-put other cache j e old new arp_cache_size 0 in
    elim (Option-cases (entry_from cache other arp_cache_size 0)) [
      | inl g ↦ lookup_none (put cache j e) other (alike ∙ g) ∙ sym (lookup_none cache other g)
      | inr (k, g) ↦
          let (lk, hk, m, before) =
            subst (Located other cache arp_cache_size 0) g
              (entry_from-Located other cache arp_cache_size 0) in
          let apart : k ≢ j =
            λ q. absurd (true-false (sym m ∙ ap (λ x. matches (cache x) other) q ∙ old)) in
          lookup_at other (put cache j e) k (alike ∙ g)
          ∙ ap (λ x. some x.mac) (put_other cache j e k apart)
          ∙ sym (lookup_at other cache k g)
    ]

-- In a cache whose next index is in range, an address just inserted is looked up with the MAC
-- address it was inserted with, any other address that the entry at the next index does not hold
-- is looked up as before, and the next index stays in range.
pub arp_insert_lem :
    (s : Arp) (ip mac : ℕ)
    → s.cache_next < arp_cache_size
    → (arp_lookup (arp_insert s ip mac).cache ip ≡ some mac)
      × ((other : ℕ)
          → other ≢ ip
          → matches (s.cache s.cache_next) other ≡ false
          → arp_lookup (arp_insert s ip mac).cache other ≡ arp_lookup s.cache other)
      × ((arp_insert s ip mac).cache_next < arp_cache_size)
unfolding Located
arp_insert_lem s ip mac lt = (
  arp_lookup-arp_insert s ip mac lt,
  λ other ne kept. elim (Option-cases (entry_from s.cache ip arp_cache_size 0)) [
    | inl e ↦
        let new : matches (record { ip = ip; mac = mac; valid = true }) other ≡ false =
          ground arith in
        ap (λ q. arp_lookup q.cache other) (insert_new s ip mac e)
        ∙ arp_lookup-put s.cache other s.cache_next (record { ip = ip; mac = mac; valid = true })
            kept new
    | inr (i, e) ↦
        let (lj, hj, m, before) =
          subst (Located ip s.cache arp_cache_size 0) e
            (entry_from-Located ip s.cache arp_cache_size 0) in
        let old : matches (s.cache i) other ≡ false = ground arith in
        ap (λ q. arp_lookup q.cache other) (insert_known s ip mac i e)
        ∙ arp_lookup-put s.cache other i (record (s.cache i) { mac = mac }) old old
  ],
  elim (Option-cases (entry_from s.cache ip arp_cache_size 0)) [
    | inl e ↦ subst (λ q. q.cache_next < arp_cache_size) (sym (insert_new s ip mac e)) (omega arith)
    | inr (i, e) ↦ subst (λ q. q.cache_next < arp_cache_size) (sym (insert_known s ip mac i e)) lt
  ],
)
