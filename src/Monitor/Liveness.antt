-- ===== src/Monitor/Liveness.antt =====
-- What `_is_peer_alive` and `_tick` of src/companion/wg_monitor.py tell of the peers.
use hactl_companion.Base.{
  ℕ, ◌+◌, ◌≤◌, ◌<◌, ◌≡◌, ◌∙◌, refl, sym, subst, Bool, true, List, [], ◌∷◌, arith, Text, eq_text,
  eq_text_iff, split, all, drop, ◌⊎◌, inl, inr, Bool-cases,
}
use hactl_companion.Monitor.{
  PeerEndpoint, Completed, stale_handshake, splitlines, int_or_zero, add_handshake, read_handshakes,
  latest_handshake, is_fresh, alive_in,
}

-- A row of the dump that reports a handshake of the key at a time.
pub data IsRow (k : Text) (t : ℕ) : List Text → Type 0 where
  row :
      (a b c stamp : Text) (more : List Text)
      → int_or_zero stamp ≡ t
      → IsRow k t (k ∷ a ∷ b ∷ c ∷ stamp ∷ more)

pub data Reports (k : Text) (t : ℕ) : List Text → Type 0 where
  here : (line : Text) (lines : List Text) → IsRow k t (split 9 line) → Reports k t (line ∷ lines)
  there : (line : Text) (lines : List Text) → Reports k t lines → Reports k t (line ∷ lines)

add_handshake-latest :
    (k : Text) (fields : List Text) (known : List (Text × ℕ))
    → IsRow k (latest_handshake k (add_handshake fields known)) fields
      ⊎ (latest_handshake k (add_handshake fields known) ≡ latest_handshake k known)
unfolding add_handshake latest_handshake
add_handshake-latest k [] known = inr refl
add_handshake-latest k (p ∷ []) known = inr refl
add_handshake-latest k (p ∷ a ∷ []) known = inr refl
add_handshake-latest k (p ∷ a ∷ b ∷ []) known = inr refl
add_handshake-latest k (p ∷ a ∷ b ∷ c ∷ []) known = inr refl
add_handshake-latest k (p ∷ a ∷ b ∷ c ∷ t ∷ more) known = elim (Bool-cases (eq_text p k)) [
  | inl e ↦
      let same = sym ((eq_text_iff p k).0 e) in
      rw e (
        inl (
          subst (λ x. IsRow k (int_or_zero t) (x ∷ a ∷ b ∷ c ∷ t ∷ more)) same
            (row a b c t more refl)))
  | inr e ↦ rw e (inr refl)
]

read_handshakes-latest :
    (k : Text) (lines : List Text) (known : List (Text × ℕ))
    → Reports k (latest_handshake k (read_handshakes lines known)) lines
      ⊎ (latest_handshake k (read_handshakes lines known) ≡ latest_handshake k known)
unfolding read_handshakes
read_handshakes-latest k [] known = inr refl
read_handshakes-latest k (line ∷ lines) known =
    elim (read_handshakes-latest k lines (add_handshake (split 9 line) known)) [
      | inl later ↦ inl (there line lines later)
      | inr same ↦ elim (add_handshake-latest k (split 9 line) known) [
        | inl now ↦ inl (rw same (here line lines now))
        | inr before ↦ inr (same ∙ before)
      ]
    ]

-- The peer is among the listed ones.
pub data IsListed (p : PeerEndpoint) : List PeerEndpoint → Type 0 where
  first : (ps : List PeerEndpoint) → IsListed p (p ∷ ps)
  next : (q : PeerEndpoint) (ps : List PeerEndpoint) → IsListed p ps → IsListed p (q ∷ ps)

all-listed :
    (test : PeerEndpoint → Bool) (p : PeerEndpoint) (ps : List PeerEndpoint)
    → all test ps ≡ true
    → IsListed p ps
    → test p ≡ true
all-listed test p [] h m = elim m [ ]
all-listed test p (q ∷ ps) h (first _) = ground (arith, h)
all-listed test p (q ∷ ps) h (next _ _ m) = all-listed test p ps (ground (arith, h)) m

-- Where the dump counts as alive, every watched peer has a row in it, behind the interface's line,
-- with a handshake of the last 180 seconds; the clock is past the first 180 seconds of its epoch.
pub alive_in-Reports :
    (now : ℕ) (peers : List PeerEndpoint) (dump : Completed) (p : PeerEndpoint)
    → stale_handshake < now
    → alive_in now peers dump ≡ true
    → IsListed p peers
    → (t : ℕ) × Reports p.pubkey t (drop 1 (splitlines dump.stdout)) × (now ≤ t + stale_handshake)
unfolding alive_in
alive_in-Reports now peers dump p late h m =
    let lines = drop 1 (splitlines dump.stdout) in
    let known = read_handshakes lines [] in
    let fresh : is_fresh now known p ≡ true =
      all-listed (is_fresh now known) p peers (ground (arith, h)) m in
    elim (read_handshakes-latest p.pubkey lines []) [
      | inl r ↦ (latest_handshake p.pubkey known, r, ground (arith, fresh))
      | inr e ↦
          absurd
            let z : latest_handshake p.pubkey [] ≡ 0 = unfold latest_handshake in refl in
              ground (arith, fresh, e, z, late)
    ]
