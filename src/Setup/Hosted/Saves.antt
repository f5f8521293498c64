-- ===== src/Setup/Hosted/Saves.antt =====
-- What is saved for a did:web before the setup goes on.
use affinidi_trust_registry.Json.{Value}
use affinidi_trust_registry.Setup.Did.{Secret}
use affinidi_trust_registry.Setup.Document.{
  Document, Urls, Jwks, jwk_value, jwk_secret, document_of, secrets_of,
}
use affinidi_trust_registry.Setup.Hosted.{Host, create_keys, save_document, setup_did_web_tr}
use affinidi_trust_registry.Prelude.Text.{replace}
use affinidi_trust_registry.Prelude.Effect
use affinidi_trust_registry.Prelude.Effect.{Effect, continue, lift}
use affinidi_trust_registry.Prelude.{
  String, ◌<>◌, ◌≡◌, ◌⊎◌, refl, sym, ap, ◌∙◌, subst, inl, inr, Option, none, some, String-discrete,
  List, [], ◌∷◌, ◌++◌, map, All, Result, ok, err, ok-not_err, Result-cases, ◌>>=◌,
}

-- The verification methods of the document are those of `did#key-1`, for assertions and for
-- authentication, and of `did#key-2`, for the agreement on keys.
pub record KeysOf (urls : Urls) (did : String) (document : Document) : Type 0 where
  pub v_key_id : String
  pub e_key_id : String
  pub v_parsed : urls.parse (did <> "#key-1") ≡ ok v_key_id
  pub e_parsed : urls.parse (did <> "#key-2") ≡ ok e_key_id
  pub methods : map (λ m. m.id) document.verification_method ≡ v_key_id ∷ e_key_id ∷ []
  pub assertion_method : document.assertion_method ≡ v_key_id ∷ []
  pub authentication : document.authentication ≡ v_key_id ∷ []
  pub key_agreement : document.key_agreement ≡ e_key_id ∷ []

abbrev KeysOfResult : Urls → String → Result Document String → Type 0
KeysOfResult urls did (ok document) = KeysOf urls did document
KeysOfResult urls did (err problem) = Unit

result-bind :
    {A B E : Type 0} (r : Result A E) (f : A → Result B E) {b : B}
    → (r >>= f) ≡ ok b
    → (a : A) × (r ≡ ok a) × (f a ≡ ok b)
result-bind (ok a) f h = (a, refl, h)
result-bind (err e) f h = absurd (ok-not_err e h refl)

effect-bind :
    {S E A B : Type 0} (m : Effect S E A) (f : A → Effect S E B) (s : S) {b : B} {s' : S}
    → Effect.◌>>=◌ m f s ≡ (ok b, s')
    → (a : A) × (s1 : S) × (m s ≡ (ok a, s1)) × (f a s1 ≡ (ok b, s'))
effect-bind m f s h = elim (Result-cases (m s).0) [
  | inl (a, e) ↦ (a, (m s).1, ap (λ r. (r, (m s).1)) e, sym (ap (λ r. continue r f (m s).1) e) ∙ h)
  | inr (problem, e) ↦
      absurd (ok-not_err problem (ap (λ p. p.0) h) (ap (λ r. (continue r f (m s).1).0) e))
]

document_of-KeysOf :
    (urls : Urls) (did v e mediator_url : String) {document : Document}
    → document_of urls did v e mediator_url ≡ ok document
    → KeysOf urls did document
unfolding document_of
document_of-KeysOf urls did v e mediator_url h =
    let (id, p0, h0) = result-bind (urls.document_id did) _ h in
    let (v_key_id, p1, h1) = result-bind (urls.parse (did <> "#key-1")) _ h0 in
    let (v_controller, p2, h2) = result-bind (urls.parse did) _ h1 in
    let (e_key_id, p3, h3) = result-bind (urls.parse (did <> "#key-2")) _ h2 in
    let (e_controller, p4, h4) = result-bind (urls.parse did) _ h3 in
    let (service_id, p5, h5) = result-bind (urls.parse (did <> "#service")) _ h4 in
    let (auth_id, p6, h6) = result-bind (urls.parse (did <> "#auth")) _ h5 in
    subst (λ r. KeysOfResult urls did r) h6
      (record {
        v_key_id = v_key_id;
        e_key_id = e_key_id;
        v_parsed = p1;
        e_parsed = p3;
        methods = refl;
        assertion_method = refl;
        authentication = refl;
        key_agreement = refl;
      })

abbrev IsKey : (did id : String) → Type 0
IsKey did id = (id ≡ did <> "#key-1") ⊎ (id ≡ did <> "#key-2")

-- A secret that is read from JSON has the id that stands there.
abbrev pub KeepsId : {K : Type 0} → Jwks K → Type 0
KeepsId {K} jwks =
    (id : String) (jwk : Value) (secret : Secret K)
    → jwks.from_value (jwk_value id jwk) ≡ ok secret
    → secret.id ≡ id

All-append : {A : Type 0} (P : A → Type 0) (xs ys : List A) → All P xs → All P ys → All P (xs ++ ys)
All-append P [] ys h k = k
All-append P (x ∷ xs) ys h k = (h.0, All-append P xs ys h.1 k)

abbrev list_of : {A E : Type 0} → Result (List A) E → List A
list_of (ok xs) = xs
list_of (err e) = []

module _ {K : Type 0} (jwks : Jwks K) (keeps : KeepsId jwks) (P : String → Type 0) where
  jwk_secret-All :
      (id : String) (jwk : Option Value) {secrets : List (Secret K)}
      → P id
      → jwk_secret jwks id jwk ≡ ok secrets
      → All (λ secret. P secret.id) secrets
  jwk_secret-All id none p h = subst (All (λ secret. P secret.id)) (ap list_of h) tt
  jwk_secret-All id (some jwk) p h =
      let (secret, e, f) = result-bind (jwks.from_value (jwk_value id jwk)) _ h in
      subst (All (λ secret. P secret.id)) (ap list_of f)
        (subst P (sym (keeps id jwk secret e)) p, tt)

  secrets_of-All :
      (did : String) (v e : K) {secrets : List (Secret K)}
      → P (did <> "#key-1")
      → P (did <> "#key-2")
      → secrets_of jwks did v e ≡ ok secrets
      → All (λ secret. P secret.id) secrets
  unfolding secrets_of
  secrets_of-All did v e p q h =
      let (xs, h1, f1) = result-bind (jwk_secret jwks (did <> "#key-1") (jwks.jwk v)) _ h in
      let (ys, h2, f2) = result-bind (jwk_secret jwks (did <> "#key-2") (jwks.jwk e)) _ f1 in
      subst (All (λ secret. P secret.id)) (ap list_of f2) (
        All-append (λ secret. P secret.id) xs ys
          (jwk_secret-All (did <> "#key-1") (jwks.jwk v) p h1)
          (jwk_secret-All (did <> "#key-2") (jwks.jwk e) q h2))

module _ {W K L : Type 0} (host : Host W K L) where
  -- The document of the DID was written to did.json, as the last before the key press.
  pub record Hosted (did : String) (secrets : List (Secret K)) (w' : W) : Type 0 where
    pub document : Document
    pub keys : KeysOf host.urls did document
    pub named : All (λ secret. IsKey did secret.id) secrets
    pub text : String
    pub printed : host.to_string_pretty document ≡ ok text
    pub w1 : W
    pub w2 : W
    pub written : host.write_all "did.json" text w1 ≡ (ok tt, w2)
    pub pressed : host.press_key w2 ≡ (ok tt, w')

  save_document-Hosted :
      (did : String) (document : Document) (secrets : List (Secret K)) (w : W) {w' : W}
      → KeysOf host.urls did document
      → All (λ secret. IsKey did secret.id) secrets
      → save_document host document w ≡ (ok tt, w')
      → Hosted did secrets w'
  unfolding save_document
  save_document-Hosted did document secrets w keys named h =
      let (created, w0, e0, h0) = effect-bind (host.create_file "did.json") _ w h in
      let (text, w1, e1, h1) = effect-bind (lift (host.to_string_pretty document)) _ w0 h0 in
      let (written, w2, e2, h2) = effect-bind (host.write_all "did.json" text) _ w1 h1 in
      record {
        document = document;
        keys = keys;
        named = named;
        text = text;
        printed = ap (λ p. p.0) e1;
        w1 = w1;
        w2 = w2;
        written = e2;
        pressed = h2;
      }

  abbrev WebResult : (web_url : String) → Result (String × List (Secret K)) String × W → Type 0
  WebResult web_url (ok (did, secrets), w') =
      (url_text : String) × (host.web_url web_url ≡ ok url_text)
      × (did ≡ replace "webvh:{SCID}" "web" url_text)
      × Hosted did secrets w'
  WebResult web_url (err problem, w') = Unit

  -- If setting up a did:web succeeds, in a setting where a secret that is read from JSON has the id
  -- that stands there, then its DID is the parsed URL with `web` for `webvh:{SCID}`; the last thing
  -- before the key press was to write, to did.json, the text of a document whose verification
  -- methods are those of `did#key-1`, the one reference for assertions and for authentication, and
  -- of `did#key-2`, the one for the agreement on keys; and each secret that is returned has one of
  -- these two ids.
  pub setup_did_web_tr-Hosted :
      KeepsId host.jwks
      → (mediator_url web_url : String) (w : W) {did : String} {secrets : List (Secret K)} {w' : W}
      → setup_did_web_tr host mediator_url web_url "web" w ≡ (ok (did, secrets), w')
      → (url_text : String) × (host.web_url web_url ≡ ok url_text)
        × (did ≡ replace "webvh:{SCID}" "web" url_text)
        × Hosted did secrets w'
  unfolding setup_did_web_tr String-discrete
  setup_did_web_tr-Hosted keeps mediator_url web_url w {did} {secrets} {w'} h =
      let (url_text, w0, e0, h0) = effect-bind (lift (host.web_url web_url)) _ w h in
      let (keys, w1, e1, h1) = effect-bind (create_keys host) _ w0 h0 in
      let tr_did = replace "webvh:{SCID}" "web" url_text in
      let (document, w2, e2, h2) =
        effect-bind (lift (document_of host.urls tr_did keys.0.id keys.1.id mediator_url)) _ w1
          h1 in
      let (read, w3, e3, h3) =
        effect-bind (lift (secrets_of host.jwks tr_did keys.0.key keys.1.key)) _ w2 h2 in
      let (saved, w4, e4, h4) = effect-bind (save_document host document) _ w3 h3 in
      subst (WebResult web_url) h4 (
        url_text,
        ap (λ p. p.0) e0,
        refl,
        save_document-Hosted tr_did document read w3
            (document_of-KeysOf host.urls tr_did keys.0.id keys.1.id mediator_url
              (ap (λ p. p.0) e2))
            (secrets_of-All host.jwks keeps (IsKey tr_did) tr_did keys.0.key keys.1.key (inl refl)
              (inr refl) (ap (λ p. p.0) e3))
            e4,
      )
