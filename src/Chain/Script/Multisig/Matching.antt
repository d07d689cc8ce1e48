-- ===== src/Chain/Script/Multisig/Matching.antt =====
-- The matching of signatures to keys, against its description: each signature has a key of its own
-- that it is valid for, in the order of the keys.
use mathlib.Core.Path.{subst}
use browser_coin_native_mine.Prelude.{
  some-inj, sym, ◌≡◌, ◌↔◌, refl, true, some, [], ◌∷◌, Bytes, Option-cases, Bool-cases, inl, inr,
}
use browser_coin_native_mine.Chain.Crypto.{Crypto}
use browser_coin_native_mine.Chain.Script.Multisig.{signature_valid, next_match, match_sigs}
use browser_coin_native_mine.Chain.Script.Stack.{Items}

module _ ⦃c : Crypto⦄ (sighash : Bytes) where
  -- Keys are passed over or used once, from left to right.
  pub data Matches : Items → Items → Type 0 where
    done : {keys : Items} → Matches [] keys
    pass : {sigs keys : Items} (pk : Bytes) → Matches sigs keys → Matches sigs (pk ∷ keys)
    use_key :
        {sigs keys : Items} (sig pk : Bytes)
        → signature_valid sighash sig pk ≡ true
        → Matches sigs keys
        → Matches (sig ∷ sigs) (pk ∷ keys)

  -- Fewer signatures need no more keys.
  Matches-tail : {sig : Bytes} {sigs keys : Items} → Matches (sig ∷ sigs) keys → Matches sigs keys
  Matches-tail (pass pk h) = pass pk (Matches-tail h)
  Matches-tail (use_key sig pk valid h) = pass pk h

  next_match_sound :
      (sig : Bytes) (sigs keys : Items) {rest : Items}
      → next_match sighash sig keys ≡ some rest
      → Matches sigs rest
      → Matches (sig ∷ sigs) keys
  unfolding next_match
  next_match_sound sig sigs [] e h = cc
  next_match_sound sig sigs (pk ∷ keys) {rest} e h =
      elim (Bool-cases (signature_valid sighash sig pk)) [
        | inl valid ↦ use_key sig pk valid (subst (Matches sigs) (sym (some-inj (rw valid at e))) h)
        | inr other ↦ pass pk (next_match_sound sig sigs keys (rw other at e) h)
      ]

  -- The first key that fits is as good as any.
  next_match_complete :
      (sig : Bytes) {sigs keys : Items}
      → Matches (sig ∷ sigs) keys
      → (rest : Items) × (next_match sighash sig keys ≡ some rest) × Matches sigs rest
  unfolding next_match
  next_match_complete sig (use_key {sigs = sigs} {keys = keys} _ pk valid h) = (keys, rw valid, h)
  next_match_complete sig (pass {keys = keys} pk h) =
      elim (Bool-cases (signature_valid sighash sig pk)) [
        | inl valid ↦ (keys, rw valid, Matches-tail h)
        | inr other ↦
            let (rest, found, matched) = next_match_complete sig h in
            (rest, rw other found, matched)
      ]

  match_sigs_sound : (sigs keys : Items) → match_sigs sighash sigs keys ≡ true → Matches sigs keys
  unfolding match_sigs
  match_sigs_sound [] keys e = done
  match_sigs_sound (sig ∷ sigs) keys e = elim (Option-cases (next_match sighash sig keys)) [
    | inl nothing ↦ absurd (cc (rw (nothing, match_sigs) at e))
    | inr (rest, found) ↦
        next_match_sound sig sigs keys found
          (match_sigs_sound sigs rest (rw (found, match_sigs) at e))
  ]

  match_sigs_complete :
      (sigs : Items) {keys : Items} → Matches sigs keys → match_sigs sighash sigs keys ≡ true
  unfolding match_sigs
  match_sigs_complete [] h = refl
  match_sigs_complete (sig ∷ sigs) h =
      let (rest, found, matched) = next_match_complete sig h in
      rw (found, match_sigs) (match_sigs_complete sigs matched)

  -- The scan accepts exactly when the signatures can be matched to keys in order, each key used at
  -- most once: a greedy choice loses no matching.
  pub match_sigs_iff :
      (sigs keys : Items) → (match_sigs sighash sigs keys ≡ true) ↔ Matches sigs keys
  match_sigs_iff sigs keys = (match_sigs_sound sigs keys, match_sigs_complete sigs)
