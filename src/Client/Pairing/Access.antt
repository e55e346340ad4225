-- ===== src/Client/Pairing/Access.antt =====
-- client.cpp: who may save a pair record.
use usbmuxd_plugable_usb_msv.Prelude.{
  ℕ, ◌≡◌, sym, subst, ℤ, ◌⊎◌, inl, inr, List, ◌∷◌, true, some, arith, ◌==◌, Bool-cases,
  Option-cases, is_neg, if◌then◌else◌,
}
use usbmuxd_plugable_usb_msv.Wire.{le32}
use usbmuxd_plugable_usb_msv.World.{World, record_saved}
use usbmuxd_plugable_usb_msv.World.Host.{Host}
use usbmuxd_plugable_usb_msv.World.Step.{Outcome}
use usbmuxd_plugable_usb_msv.World.Step.Ends.{Ends, Ends-bind, Ends-map}
use usbmuxd_plugable_usb_msv.Client.Reply.{
  make_room, copy_message, send_pkt, send_plist_pkt, send_result, result_plist, message_plist,
  message_result, result_ok,
}
use usbmuxd_plugable_usb_msv.Client.Plist.{
  answer, plist_dict_get_string_val, typed_item, ◌>>=?◌, is_data, einval, magnitude,
}
use usbmuxd_plugable_usb_msv.Client.Pairing.{is_libusbmuxd, handle_save_pair_record_command}

-- The trace is left as it is.
abbrev Quiet : {A : Type 0} → World → Outcome A → Type 0
Quiet w o = Ends (λ _ v. v.trace ≡ w.trace) o

module _ (host : Host) where
  send_pkt-Quiet :
      (p tag msg : ℕ) (payload : List ℕ) (w : World) → Quiet w (send_pkt host p tag msg payload w)
  unfolding send_pkt make_room copy_message
  send_pkt-Quiet p tag msg payload w = ground arith

  send_plist_pkt-Quiet :
      (p tag : ℕ) (plist : host.Plist) (w : World) → Quiet w (send_plist_pkt host p tag plist w)
  unfolding send_plist_pkt
  send_plist_pkt-Quiet p tag plist w = elim (Option-cases (host.plist_to_xml plist)) [
    | inl e ↦ ground (arith, e)
    | inr (xml, e) ↦ ground (arith, e, send_pkt-Quiet p tag message_plist xml w)
  ]

  send_result-Quiet : (p tag result : ℕ) (w : World) → Quiet w (send_result host p tag result w)
  unfolding send_result
  send_result-Quiet p tag result w = elim (Option-cases (w.clients p)) [
    | inl e ↦ ground (arith, e)
    | inr (c, e) ↦ elim (Bool-cases (c.proto_version == 1)) [
      | inl one ↦ ground (arith, e, one, send_plist_pkt-Quiet p tag (result_plist host result) w)
      | inr zeroth ↦ ground (arith, e, zeroth, send_pkt-Quiet p tag message_result (le32 result) w)
    ]
  ]

  answer-Quiet : (p tag result : ℕ) (w : World) → Quiet w (answer host p tag result w)
  unfolding answer
  answer-Quiet p tag result w =
      Ends-bind (λ _ v. v.trace ≡ w.trace) (λ _ v. v.trace ≡ w.trace)
        (send_result host p tag result) _ w (send_result-Quiet p tag result w) (λ _ v same. same)

  -- The record that a dictionary asks to be saved.
  abbrev pub AsksToSave : host.Plist → List ℕ → List ℕ → Type 0
  AsksToSave dict record_id contents =
      (is_libusbmuxd host dict ≡ true)
      × (plist_dict_get_string_val host dict "PairRecordID" ≡ some record_id)
      × ((typed_item host dict "PairRecordData" is_data >>=? host.plist_get_data_val)
          ≡ some contents)

  -- Nothing was saved, or just the record that was asked for.
  abbrev pub Saves : host.Plist → World → World → Type 0
  Saves dict w v =
      (v.trace ≡ w.trace)
      ⊎ ((record_id : List ℕ) × (contents : List ℕ) × (v.trace
            ≡ record_saved record_id contents ∷ w.trace)
          × AsksToSave dict record_id contents)

  no_save :
      (dict : host.Plist) (client tag result : ℕ) (w : World) (o : Outcome ℤ)
      → o ≡ answer host client tag result w
      → Ends (λ _ v. Saves dict w v) o
  no_save dict client tag result w o e = subst (Ends (λ _ v. Saves dict w v)) (sym e) (
      Ends-map (λ _ v. v.trace ≡ w.trace) (λ _ v. Saves dict w v) (answer host client tag result w)
        (λ _ v same. inl same) (answer-Quiet client tag result w))

  one_save :
      (dict : host.Plist) (record_id contents : List ℕ) (client tag result : ℕ) (w : World)
      (o : Outcome ℤ)
      → AsksToSave dict record_id contents
      → o
        ≡ answer host client tag result
            (record w { trace = record_saved record_id contents ∷ w.trace })
      → Ends (λ _ v. Saves dict w v) o
  one_save dict record_id contents client tag result w o asks e =
      subst (Ends (λ _ v. Saves dict w v)) (sym e) (
        Ends-map (λ _ v. v.trace ≡ saved.trace) (λ _ v. Saves dict w v)
          (answer host client tag result saved) (λ _ v same. inr (record_id, contents, same, asks))
          (answer-Quiet client tag result saved))
    where
      saved : World
      saved = record w { trace = record_saved record_id contents ∷ w.trace }

  -- `handle_save_pair_record_command` ends, and either asks the store for nothing, or just once to
  -- save the record that the message names and carries; and that only if the message says that
  -- libusbmuxd sent it.
  pub handle_save_pair_record_command_lem :
      (client tag : ℕ) (dict : host.Plist) (w : World)
      → Ends (λ _ v. Saves dict w v) (handle_save_pair_record_command host client tag dict w)
  unfolding handle_save_pair_record_command
  handle_save_pair_record_command_lem client tag dict w =
      elim (Bool-cases (is_libusbmuxd host dict)) [
        | inl ours ↦ elim (Option-cases (plist_dict_get_string_val host dict "PairRecordID")) [
          | inl e ↦ no_save dict client tag einval w _ (ground (arith, ours, e))
          | inr (record_id, e) ↦
              elim (Option-cases
                (typed_item host dict "PairRecordData" is_data >>=? host.plist_get_data_val)) [
                  | inl f ↦ no_save dict client tag einval w _ (ground (arith, ours, e, f))
                  | inr (contents, f) ↦
                      let res = host.config_set_device_record w.trace record_id contents in
                      one_save dict record_id contents client tag
                        (if is_neg res then magnitude res else result_ok) w _ (ours, e, f)
                        (ground (arith, ours, e, f))
                ]
        ]
        | inr other ↦ no_save dict client tag result_ok w _ (ground (arith, other))
      ]
