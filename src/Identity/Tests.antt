-- ===== src/Identity/Tests.antt =====
-- Two pins, and calls that repeat one and contradict it.
use jetkvm_cli.Base.{◌≡◌, ◌≢◌, ◌⊎◌, refl, false, some, [], ◌∷◌, ok, err}
use jetkvm_cli.Identity.{
  IdentityPin, identity_mismatch, find_pin, insert_pin, pin_identity, verify_identity, pin_all,
  pinned_identity_is_final, pin_identity-verify_identity,
}

abbrev desk : IdentityPin
desk = record {
  alias = "desk";
  origin = "http://10.0.0.2";
  device_id = "kvm-1";
  created_at = 5;
  updated_at = 5;
}

abbrev impostor : IdentityPin
impostor = record desk { device_id = "kvm-2" }

desk_found : find_pin "desk" (desk ∷ []) ≡ some desk
unfolding find_pin
desk_found = refl

pinned_identity_is_final_example :
    (("http://10.0.0.2" ≡ desk.origin)
      × ("kvm-2" ≡ desk.device_id)
      × (verify_identity
            (pin_all (desk ∷ []) ((impostor, 9) ∷ (desk, 10) ∷ []))
            "desk"
            "http://10.0.0.2"
            "kvm-2"
          ≡ ok desk))
    ⊎ ((("http://10.0.0.2" ≢ desk.origin) ⊎ ("kvm-2" ≢ desk.device_id))
        × (verify_identity
              (pin_all (desk ∷ []) ((impostor, 9) ∷ (desk, 10) ∷ []))
              "desk"
              "http://10.0.0.2"
              "kvm-2"
            ≡ err identity_mismatch))
pinned_identity_is_final_example =
    pinned_identity_is_final (desk ∷ []) ((impostor, 9) ∷ (desk, 10) ∷ []) "desk" "http://10.0.0.2"
      "kvm-2" desk desk_found

desk_pinned : pin_identity [] desk 5 ≡ (desk ∷ [], ok (desk, false))
unfolding pin_identity insert_pin find_pin
desk_pinned = refl

pin_identity-verify_identity_example :
    verify_identity (desk ∷ []) "desk" "http://10.0.0.2" "kvm-1" ≡ ok desk
pin_identity-verify_identity_example =
    pin_identity-verify_identity [] (desk ∷ []) desk desk 5 false desk_pinned
