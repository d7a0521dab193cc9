-- ===== src/Greylist/Challenge/Digest.antt =====
-- The digest as the client computes it.
use hotchkiss_io.Base.{List, [], ap, refl, ℕ, ◌++◌, ◌∙◌, ◌∷◌, ◌≡◌}
use hotchkiss_io.Greylist.Challenge.{chain, chain_iv, concatenated, image_digest, reversed}

module _ (sha256 : List ℕ → List ℕ) where
  -- The browser's loop, in one pass: each hash is put in front of the bytes to hash last.
  abbrev pub client_chain : List ℕ → List ℕ → List ℕ → List ℕ
  client_chain (r ∷ g ∷ b ∷ a ∷ rgba) h done_so_far =
      let next = sha256 ((r ∷ g ∷ b ∷ a ∷ []) ++ h) in client_chain rgba next (next ++ done_so_far)
  client_chain _ h done_so_far = done_so_far

  reversed-snoc :
      {A : Type 0} (xs : List A) (x : A) → reversed sha256 (xs ++ x ∷ []) ≡ x ∷ reversed sha256 xs
  unfolding reversed
  reversed-snoc [] x = refl
  reversed-snoc (y ∷ xs) x = rw (reversed-snoc xs x) refl

  chain-client :
      (rgba h : List ℕ) (store : List (List ℕ))
      → concatenated sha256 (reversed sha256 (chain sha256 rgba h store))
        ≡ client_chain rgba h (concatenated sha256 (reversed sha256 store))
  unfolding chain concatenated
  chain-client (r ∷ g ∷ b ∷ a ∷ rgba) h store =
      let next = sha256 ((r ∷ g ∷ b ∷ a ∷ []) ++ h) in
      chain-client rgba next (store ++ next ∷ []) ∙ rw (reversed-snoc store next) refl
  chain-client _ h store = refl

  -- The server's digest, over the stored hashes in reverse, is the client's, and an incomplete last
  -- pixel counts for neither.
  pub image_digest-client :
      (rgba : List ℕ) → image_digest sha256 rgba ≡ sha256 (client_chain rgba chain_iv [])
  unfolding image_digest concatenated reversed
  image_digest-client rgba = ap sha256 (chain-client rgba chain_iv [])
