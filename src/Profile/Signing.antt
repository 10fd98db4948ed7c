-- ===== src/Profile/Signing.antt =====
-- The signing and the verification of profiles (governance/profile.py).
use general_autonomy_protoco.Prelude.{String, ◌≡◌, sym, ◌≢◌, true, false, none, some, arith, ◌==◌}
use general_autonomy_protoco.Prelude.Dict.{lookup}
use general_autonomy_protoco.Models.{Crypto, IsKeyPair}
use general_autonomy_protoco.Profile.{
  ApplicabilityProfile, PublicKeyRegistry, signing_payload, sign_profile, verify_profile,
}

module _ (C : Crypto) (private public key_id : String) (keys : IsKeyPair C private public)
    (registry : PublicKeyRegistry) (registered : lookup key_id registry ≡ some public)
    (named : (key_id == "") ≡ false) (nonempty : (public == "") ≡ false) where
  -- A profile that is signed with a registered key pair verifies, where the key id, the key and the
  -- signature are not empty.
  pub verify_profile-sign_profile :
      (p : ApplicabilityProfile)
      → (C.sign private (signing_payload C p) == "") ≡ false
      → verify_profile C (sign_profile C p private key_id) registry ≡ none
  unfolding verify_profile sign_profile
  verify_profile-sign_profile p h =
      rw (registered, named, h) (ground (arith, keys.signed (signing_payload C p)))

  -- A profile with the signature of another under a registered key is refused, where the texts that
  -- the two are signed as differ.
  pub verify_profile-tampered :
      (p q : ApplicabilityProfile)
      → signing_payload C p ≢ signing_payload C q
      → q.signing_key_id ≡ some key_id
      → q.signature ≡ (sign_profile C p private key_id).signature
      → verify_profile C q registry ≢ none
  unfolding verify_profile sign_profile
  verify_profile-tampered p q differ id_of sig accepted =
      let verified : C.verify public (signing_payload C q) (C.sign private (signing_payload C p))
          ≡ true =
        ground arith in
      differ (sym (keys.binding (signing_payload C q) (signing_payload C p) verified))
