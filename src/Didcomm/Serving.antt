-- ===== src/Didcomm/Serving.antt =====
-- The service on its messages: the listener gives messages to handlers (Listener), and each handler
-- comes to its end at some later point. A handler touches the store in at most one call of the
-- repository, so for the store it runs to its end in one step.
use mathlib.Core.List.{Perm, perm_middle, append_assoc}
use mathlib.Core.List.Perm
use affinidi_trust_registry.Storage.Repository.{TrustRecordAdminRepository}
use affinidi_trust_registry.Storage.Registry.{Registry, Implements}
use affinidi_trust_registry.Didcomm.World.{Sdk, Profile, World}
use affinidi_trust_registry.Didcomm.Admin.Messages.{Decoder}
use affinidi_trust_registry.Didcomm.Trqp.{QueryCodec}
use affinidi_trust_registry.Didcomm.Handlers.{context_of, handle, build}
use affinidi_trust_registry.Didcomm.Handlers.Routing.{StandsFor, after, service-Stands}
use affinidi_trust_registry.Didcomm.Listener.{Packet, Mediator}
use affinidi_trust_registry.Didcomm.Listener.Running.{Listening, Step}
use affinidi_trust_registry.Prelude.{
  String, ◌≡◌, refl, sym, subst, List, [], ◌∷◌, ◌++◌, contains, string_eq,
}

-- `unfinished` are the handler tasks that were started and still run.
pub record Serving (M Meta S : Type 0) : Type 0 where
  pub listening : Listening M Meta
  pub unfinished : List (Packet Meta)
  pub finished : List (Packet Meta)
  pub world : World S

module _ {M Meta AclSet S : Type 0} (mediator : Mediator M Meta AclSet) (Changes : M → M → Type 0)
    (sdk : Sdk) (profile : Profile) (decoder : Decoder) (codec : QueryCodec)
    (repo : TrustRecordAdminRepository S) (admin_dids : List String) where
  -- A step of the listener, with the tasks `started` that it starts, or the end of some task
  pub data ServeStep (s t : Serving M Meta S) : Type 0 where
    listen :
        (l : Listening M Meta) (started : List (Packet Meta))
        → Step mediator Changes s.listening l
        → l.inbox.started ≡ s.listening.inbox.started ++ started
        → t ≡ record s { listening = l; unfinished = s.unfinished ++ started }
        → ServeStep s t
    finish :
        (before later : List (Packet Meta)) (packet : Packet Meta)
        → s.unfinished ≡ before ++ packet ∷ later
        → t ≡ record s {
          unfinished = before ++ later;
          finished = s.finished ++ packet ∷ [];
          world = (handle (build sdk profile decoder codec repo admin_dids) packet.0 s.world).1;
        }
        → ServeStep s t

  pub data Serves (s : Serving M Meta S) : Serving M Meta S → Type 0 where
    here : Serves s s
    next : {t u : Serving M Meta S} → Serves s t → ServeStep t u → Serves s u

module _ {S : Type 0} {IsValid : S → Type 0} {view : S → Registry} (sdk : Sdk) (profile : Profile)
    (decoder : Decoder) (codec : QueryCodec) (repo : TrustRecordAdminRepository S)
    (admin_dids : List String) (impl : Implements IsValid view repo) where
  -- The registry after some messages, in the order in which their handlers ended
  abbrev pub after_all : {Meta : Type 0} → Registry → List (Packet Meta) → Registry
  after_all reg [] = reg
  after_all reg (packet ∷ packets) =
      after_all
        (after sdk profile decoder codec repo admin_dids impl
          (contains admin_dids (context_of packet.0).sender_did) packet.0 reg)
        packets

  after_all-append :
      {Meta : Type 0} (packets : List (Packet Meta)) (reg : Registry) (packet : Packet Meta)
      → after_all reg (packets ++ packet ∷ [])
        ≡ after sdk profile decoder codec repo admin_dids impl
            (contains admin_dids (context_of packet.0).sender_did)
            packet.0
            (after_all reg packets)
  after_all-append [] reg packet = refl
  after_all-append (p ∷ packets) reg packet =
      after_all-append packets
        (after sdk profile decoder codec repo admin_dids impl
          (contains admin_dids (context_of p.0).sender_did) p.0 reg)
        packet

  -- The store is valid and stands for what the finished messages made of the registry, and the
  -- tasks that ended with those that still run are those that were started.
  pub record Served {M Meta : Type 0} (reg : Registry) (s : Serving M Meta S) : Type 0 where
    pub stands :
        StandsFor sdk profile decoder codec repo admin_dids impl
          (after_all reg s.finished)
          s.world.store
    pub tasks : Perm (s.finished ++ s.unfinished) s.listening.inbox.started

  module _ {M Meta AclSet : Type 0} (mediator : Mediator M Meta AclSet)
      (Changes : M → M → Type 0) where
    ServeStep-Served :
        (reg : Registry) {s t : Serving M Meta S}
        → ServeStep mediator Changes sdk profile decoder codec repo admin_dids s t
        → Served reg s
        → Served reg t
    ServeStep-Served reg {s} (listen l started step grown e) v =
        subst (Served reg) (sym e) (record {
          stands = v.stands;
          tasks =
              rw (grown, sym (append_assoc s.finished s.unfinished started))
                (Perm.append_right started v.tasks);
        })
    ServeStep-Served reg {s} (finish before later packet e f) v =
        subst (Served reg) (sym f) (record {
          stands =
              rw (after_all-append s.finished reg packet, sym v.stands.views)
                (service-Stands sdk profile decoder codec repo admin_dids impl packet.0 s.world
                  v.stands.valid);
          tasks = rw (append_assoc s.finished (packet ∷ []) (before ++ later)) (
              Perm.trans (Perm.append_left s.finished (Perm.symm (perm_middle before later)))
                (subst (λ l. Perm (s.finished ++ l) s.listening.inbox.started) e v.tasks));
        })

    -- In any sequence of steps of the listener and of handlers, which end in any order, each of them
    -- running as one step, over a repository that implements the registry and that nothing else
    -- changes in between (no round of the CSV synchronisation, no other service), the store is valid
    -- and stands for the registry that the messages whose handlers have ended make, one after the
    -- other, of the registry at the start, and the tasks that ended and those that still run are
    -- together the tasks that were started.
    pub Serves-Served :
        (reg : Registry) {s t : Serving M Meta S}
        → Serves mediator Changes sdk profile decoder codec repo admin_dids s t
        → Served reg s
        → Served reg t
    Serves-Served reg here v = v
    Serves-Served reg (next r step) v = ServeStep-Served reg step (Serves-Served reg r v)
