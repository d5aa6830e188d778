-- ===== src/Client/Saving.antt =====
-- The command config, and the configuration that a later command finds.
use jobs.Prelude.{
  Text, text, text_eq, lookup, Option, none, some, List, [], Bool, ◌≡◌, ap, ◌∙◌, arith,
  Option-cases, inl, inr,
}
use jobs.Client.{
  Config, Viper, Search, unmarshal, Disk, search, found, find_config, encode, save_config,
}
use jobs.Client.Commands.{Ran, config, ran}

abbrev pub or_empty : Option Text → Text
or_empty none = []
or_empty (some t) = t

unmarshal-encode :
    (w : Viper) (s : Search) (cfg : Config)
    → ((key : Text) → w.value s key ≡ or_empty (lookup key (encode cfg)))
    → unmarshal w s ≡ cfg
unfolding lookup text_eq
unmarshal-encode w s cfg k = λ i. record {
  server = k (text "server") i;
  ca_path = k (text "capath") i;
  cert_path = k (text "cert") i;
  key_path = k (text "key") i;
}

saved_fields :
    (d : Disk) (file : Text) (cfg : Config) (r : Ran) (fields : List (Text × Text))
    → ran (save_config d file (some cfg)) ≡ (r, some fields)
    → (r.status ≡ 0) × (fields ≡ encode cfg)
unfolding save_config
saved_fields d file cfg r fields h = elim (Option-cases (d.create_error file)) [
  | inr (e, p) ↦ ground arith
  | inl p ↦ elim (Option-cases (d.write_error file)) [
    | inr (e, q) ↦ ground arith
    | inl q ↦ ground arith
  ]
]

-- What jctrl config saves is read again: where it leaves fields in its file, and a later search,
-- whatever its file, has them as its values, the later command works with the same configuration.
pub config-find_config :
    (v w : Viper) (d : Disk) (is_missing : Text → Bool) (file later used : Text) (cfg : Config)
    (r : Ran) (fields : List (Text × Text))
    → find_config v file ≡ found used cfg
    → config v d is_missing file ≡ (r, some fields)
    → w.read_error (search w later) ≡ none
    → w.unmarshal_error (search w later) ≡ none
    → ((key : Text) → w.value (search w later) key ≡ or_empty (lookup key fields))
    → (r.status ≡ 0) × (find_config w later ≡ found (w.file_used (search w later)) cfg)
unfolding config find_config
config-find_config v w d is_missing file later used cfg r fields h e a b k =
    let (s, q) = saved_fields d used cfg r fields (rw (h, config) at e) in
    (
      s,
      rw (a, b)
          (ap (λ (c : Config). found (w.file_used (search w later)) c)
            (unmarshal-encode w (search w later) cfg
              (λ key. k key ∙ ap (λ l. or_empty (lookup key l)) q))),
    )
