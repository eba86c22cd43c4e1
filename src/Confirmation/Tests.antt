-- ===== src/Confirmation/Tests.antt =====
-- Proofs minted and verified at concrete inputs, with a toy codec.
use jetkvm_cli.Base.{
  ℕ, ◌+◌, ◌-◌, ◌≤◌, ◌<◌, ◌≡◌, ◌≢◌, inr, refl, sym, ap, true, false, none, some, List, [], ◌∷◌,
  arith, replicate, any, ◌==◌, is_empty, ok, err,
}
use jetkvm_cli.Base.Int.{pos}
use jetkvm_cli.Confirmation.{
  Principal, Binding, Codec, Authority, Payload, invalid_configuration, new_authority, dot, hex,
  cut, split_token, bytes_eq, seal, principal_from, payload_of, mint, open_proof, validate_binding,
  matches, check_payload, check_proof, verify_and_consume,
}
use jetkvm_cli.Confirmation.Tokens.{IsTransparent}
use jetkvm_cli.Confirmation.Minted.{IsDigest, mint-verify_and_consume, verified_as_minted}
use jetkvm_cli.Confirmation.Once.{
  Attempt, attempt, attempts, accepted_once, straddling_accepted_twice,
}

abbrev person : Principal
person = record { id = "local-process"; transport = "stdio" }

abbrev power_cycle : Binding
power_cycle = record {
  device_id = "den";
  generation = 1;
  effect = "power";
  action = "cycle";
  arguments_digest = replicate 32 7;
  policy_revision = "r1";
}

abbrev authority : Authority
authority = record { key = replicate 32 1; ttl = 50 }

abbrev confirmed : Payload
confirmed = payload_of authority person power_cycle 100 9

unfoldable toy_decode : List ℕ → List ℕ
toy_decode [] = []
toy_decode (b ∷ bs) = (b - 47) ∷ toy_decode bs

unfoldable toy_encode : List ℕ → List ℕ
toy_encode [] = []
toy_encode (b ∷ bs) = (b + 47) ∷ toy_encode bs

abbrev toy : Codec
toy = record {
  mac = λ key text. 5 ∷ [];
  encode = toy_encode;
  decode = λ b. some (toy_decode b);
  marshal = λ p. some (3 ∷ []);
  unmarshal = λ b. some confirmed;
}

toy_decode-toy_encode : (b : List ℕ) → toy_decode (toy_encode b) ≡ b
unfolding toy_decode toy_encode
toy_decode-toy_encode [] = refl
toy_decode-toy_encode (x ∷ b) = ground (arith, toy_decode-toy_encode b)

toy_encode_no_dot : (b : List ℕ) → any (λ x. x == dot) (toy_encode b) ≡ false
unfolding toy_encode
toy_encode_no_dot [] = refl
toy_encode_no_dot (x ∷ b) = ground (arith, toy_encode_no_dot b)

toy_encode_full : (b : List ℕ) → is_empty b ≡ false → is_empty (toy_encode b) ≡ false
unfolding toy_encode
toy_encode_full [] e = e
toy_encode_full (x ∷ b) e = refl

toy-IsTransparent : IsTransparent toy
toy-IsTransparent = record {
  decodes = λ b. ap some (toy_decode-toy_encode b);
  no_dot = toy_encode_no_dot;
  encodes_full = toy_encode_full;
  mac_full = λ key b. refl;
  marshal_full = λ p b e. toy_full b e;
}
  where
    toy_full : (b : List ℕ) → some (3 ∷ []) ≡ some b → is_empty b ≡ false
    toy_full b e = ap (λ o. elim o [ none ↦ true | some l ↦ is_empty l ]) (sym e)

abbrev token : List ℕ
token = seal toy authority (3 ∷ [])

known_person : principal_from (some person) ≡ some person
unfolding principal_from
known_person = refl

minted_token : mint toy authority (some person) power_cycle 100 9 ≡ ok token
unfolding mint principal_from validate_binding
minted_token = refl

mint-verify_and_consume_example :
    (verify_and_consume toy authority [] (some person) power_cycle (some token) 120 121).1 ≡ ok tt
mint-verify_and_consume_example =
    mint-verify_and_consume toy authority [] (some person) person power_cycle 100 9 120 121 token
      toy-IsTransparent (λ encoded e. refl) known_person refl minted_token (omega arith)
      (omega arith) refl

sevens-IsDigest : IsDigest (replicate 32 7)
sevens-IsDigest = ground arith

verified_as_minted_example :
    (principal_from (some person) ≡ some person)
    × (power_cycle ≡ power_cycle)
    × (100 ≤ 120)
    × (120 < 100 + authority.ttl)
verified_as_minted_example =
    verified_as_minted toy authority [] (some person) (some person) person power_cycle power_cycle
      100 9 120 121 token toy-IsTransparent (λ encoded e. refl) known_person refl minted_token
      sevens-IsDigest sevens-IsDigest mint-verify_and_consume_example

abbrev at : ℕ → ℕ → Attempt
at now store_now = record {
  caller = some person;
  binding = power_cycle;
  proof = some token;
  now = now;
  store_now = store_now;
}

opened_token : open_proof toy authority token ≡ ok confirmed
unfolding open_proof split_token cut bytes_eq toy_encode toy_decode
opened_token = refl

accepted_once_example :
    (attempt toy authority
      (attempts toy authority (attempt toy authority [] (at 120 121)).0 (at 122 123 ∷ []))
      (at 130 131)).1
    ≢ ok tt
accepted_once_example =
    accepted_once toy authority [] (at 120 121) (at 130 131) (at 122 123 ∷ []) token confirmed
      opened_token refl refl mint-verify_and_consume_example (omega arith, tt) (inr (omega arith))

checked_late : check_proof toy authority (some person) power_cycle (some token) 149 ≡ ok confirmed
unfolding check_proof principal_from validate_binding open_proof split_token cut bytes_eq toy_encode
    toy_decode check_payload matches hex
checked_late = refl

straddling_accepted_twice_example :
    (attempt toy authority (attempt toy authority [] (at 120 121)).0 (at 149 151)).1 ≡ ok tt
straddling_accepted_twice_example =
    straddling_accepted_twice toy authority [] (at 120 121) (at 149 151) token confirmed
      opened_token refl mint-verify_and_consume_example checked_late (omega arith)

short_key_refused : new_authority (replicate 31 1) (pos 0) true ≡ err invalid_configuration
unfolding new_authority
short_key_refused = refl
