-- ===== src/Setup/Acl.antt =====
-- `set_acl` of trust-registry/bin/setup_trust_registry.rs, which bin/generate_secrets.rs declares
-- alike: a mediator account that only accepts listed senders is opened to all. What `unwrap` meets
-- an error at is an error here; a message that is printed is not modelled.
use affinidi_trust_registry.Didcomm.Listener.{
  AccessListModeType, explicit_allow, explicit_deny, Mediator,
}
use affinidi_trust_registry.Prelude.Effect.{Effect, pure, lift, ◌>>=◌}
use affinidi_trust_registry.Prelude.{
  ℕ, String, Bool, true, false, Option, none, some, List, Result, ok, err, if◌then◌else◌,
}

-- Opening the connection of a profile (`from_tdk_profile`, `profile_add`), and the mode of a list
pub record AclService (M Meta AclSet Secret : Type 0) : Type 0 where
  pub mediator : Mediator M Meta AclSet
  pub connect : (alias did mediator_did : String) → List Secret → Effect M String (Unit {0})
  pub get_access_list_mode : AclSet → AccessListModeType

abbrev is_explicit_allow : AccessListModeType → Bool
is_explicit_allow explicit_allow = true
is_explicit_allow explicit_deny = false

module _ {M Meta AclSet Secret : Type 0} (service : AclService M Meta AclSet Secret) where
  unfoldable pub open_account : (did : String) → AclSet → Effect M String (Unit {0})
  open_account did acls =
      if is_explicit_allow (service.get_access_list_mode acls)
      then (lift (service.mediator.set_access_list_mode explicit_deny true false acls)
          >>= λ changed. service.mediator.acls_set (service.mediator.digest did) changed)
      else pure tt

  abbrev open_found : (did : String) → Option ℕ → Effect M String (Unit {0})
  open_found did none = pure tt
  open_found did (some acls) = open_account did (service.mediator.from_u64 acls)

  -- An error of the connection or of the first request is printed, and ends the function.
  abbrev or_return :
      {A : Type 0} → Result A String → (A → Effect M String (Unit {0})) → Effect M String (Unit {0})
  or_return (ok a) f = f a
  or_return (err e) f = pure tt

  unfoldable pub set_acl :
      (alias did mediator_did : String) → List Secret → Effect M String (Unit {0})
  unfolding open_account
  set_acl alias did mediator_did secrets s =
      let (connected, s1) = service.connect alias did mediator_did secrets s in
      or_return connected
        (λ _ s2.
          let (account_get_result, s3) = service.mediator.account_get s2 in
          or_return account_get_result (open_found did) s3)
        s1
