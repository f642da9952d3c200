-- ===== src/Transition/Document/Written.antt =====
-- The document of a transition, as `cmd_obfuscation_prepare` and `cmd_obfuscation_activate` of
-- awgctl/core.py lay it out.
use amneziawg_manager.Prelude.{ℕ, String, true, List, [], ◌∷◌}
use amneziawg_manager.Prelude.Int.{pos}
use amneziawg_manager.Value.{
  Value, Items, Fields, null, bool, int, str, arr, obj, item, nil, field, end,
}
use amneziawg_manager.Transition.Document.{
  PendingProfile, Pending, Activation, TransitionState, prepared, active, Boundary, lightsail,
  external_firewall, Transition,
}

abbrev pub state_text : TransitionState → String
state_text prepared = "prepared"
state_text (active a) = "active"

abbrev pub boundary_text : Boundary → String
boundary_text lightsail = "lightsail"
boundary_text external_firewall = "equivalent-external-firewall"

abbrev pub pending_profile_fields : PendingProfile → Fields
pending_profile_fields p = field "name" (str p.name) (
    field "config" (str p.config)
      (field "qr" (str p.qr) (field "current_revision" (int (pos p.current_revision)) end)))

abbrev pub profiles_value : List PendingProfile → Items
profiles_value [] = nil
profiles_value (p ∷ ps) = item (obj (pending_profile_fields p)) (profiles_value ps)

abbrev pub pending_fields : Pending → Fields
pending_fields p = field "root" (str p.root) (
    field "server_state" (str p.server_state) (
      field "server_config" (str p.server_config) (
        field "header_key" (str p.header_key)
          (field "profiles" (arr (profiles_value p.profiles)) end))))

abbrev pub text_if_active : (Activation → String) → TransitionState → Value
text_if_active f prepared = null
text_if_active f (active a) = str (f a)

abbrev pub number_if_active : (Activation → ℕ) → TransitionState → Value
number_if_active f prepared = null
number_if_active f (active a) = int (pos (f a))

abbrev pub activation_fields : TransitionState → Fields → Fields
activation_fields s rest = field "activated_at" (text_if_active (λ a. a.activated_at) s) (
    field "deadline_at" (text_if_active (λ a. a.deadline_at) s) (
      field "pre_rx" (number_if_active (λ a. a.pre_rx) s) (
        field "pre_tx" (number_if_active (λ a. a.pre_tx) s)
          (field "pre_handshake" (number_if_active (λ a. a.pre_handshake) s) rest))))

abbrev pub transition_document_fields : Transition → Fields
transition_document_fields t = field "schema_version" (int (pos 1)) (
    field "transaction_id" (str t.transaction_id) (
      field "state" (str (state_text t.state)) (
        field "mode" (str "awg31") (
          field "profile_name" (str "russia-ios-v1") (
            field "client_name" (str t.client_name) (
              field "old_port" (int (pos t.old_port)) (
                field "new_port" (int (pos t.new_port)) (
                  field "backup_name" (str t.backup_name) (
                    field "backup_identity"
                      (obj (
                        field "manifest_sha256" (str t.manifest_sha256)
                          (field "snapshot_sha256" (str t.snapshot_sha256) end)))
                      (field "pending" (obj (pending_fields t.pending)) (
                        field "ingress_boundary" (str (boundary_text t.ingress_boundary)) (
                          field "capability"
                            (obj (
                              field "policy_version" (int (pos 1)) (
                                field "tools_version" (str t.tools_version) (
                                  field "module_version" (str t.module_version)
                                    (field "qualified" (bool true) end)))))
                            (field "prepared_at" (str t.prepared_at) (
                              activation_fields t.state (
                                field "prestate_sha256" (str t.prestate_sha256)
                                  (field "pending_sha256" (str t.pending_sha256) end))))))))))))))))

abbrev pub transition_document : Transition → Value
transition_document t = obj (transition_document_fields t)
