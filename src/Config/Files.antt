-- ===== src/Config/Files.antt =====
-- `Load` and `Save` of internal/config/load.go.
pub mod Saved
use talka.Prelude.{Option, none, some, List, [], ◌∷◌, Result, ok, err, if◌then◌else◌}
use talka.Prelude.Bytes.{Bytes, codes, is_empty}
use talka.Prelude.Paths.{dir}
use talka.Config.{Config, Issue, Stat, default, validate}

-- YAML: a document that is empty leaves what it is decoded into.
pub data YamlError (E : Type 0) : Type 0 where
  end_of_file : YamlError E
  malformed : E → YamlError E

pub record Files (W E : Type 0) : Type 0 where
  pub stat : W → Bytes → Stat
  pub read_file : W → Bytes → Result E Bytes
  pub mkdir_all : Bytes → W → W × Option E
  pub write_file : Bytes → Bytes → W → W × Option E
  pub decode : Bytes → Config → Result (YamlError E) Config
  pub encode : Config → Result E Bytes

pub data Error (E : Type 0) : Type 0 where
  validation_error : List Issue → Error E
  open_error decode_error mkdir_error encode_error write_error : E → Error E

module _ {W E : Type 0} (unicode : Bytes → Bytes) (files : Files W E) where
  abbrev validated : W → Config → Bytes → Result (Error E) Config
  validated w c base_dir = elim (validate unicode (files.stat w) c base_dir) [
    | [] ↦ ok c
    | issue ∷ issues ↦ err (Error.validation_error (issue ∷ issues))
  ]

  abbrev decoded_file : Bytes → Result (Error E) Config
  decoded_file text = elim (files.decode text default) [
    | ok c ↦ ok c
    | err YamlError.end_of_file ↦ ok default
    | err (YamlError.malformed e) ↦ err (Error.decode_error e)
  ]

  unfoldable pub load_file : Bytes → W → Result (Error E) Config
  load_file path w = elim (files.read_file w path) [
    | err e ↦ err (Error.open_error e)
    | ok text ↦ elim (decoded_file text) [ err e ↦ err e | ok c ↦ validated w c (dir path) ]
  ]

  -- `Load`, which reads no file for an empty path.
  unfoldable pub load : Bytes → W → Result (Error E) Config
  load path w = if is_empty path then validated w default (codes ".") else load_file path w

  unfoldable pub write_config : Bytes → Config → W → W × Option (Error E)
  write_config path c w =
      let (w', unmade) = files.mkdir_all (dir path) w in
      elim unmade [
        | some e ↦ (w', some (Error.mkdir_error e))
        | none ↦ elim (files.encode c) [
          | err e ↦ (w', some (Error.encode_error e))
          | ok text ↦
              let (w'', unwritten) = files.write_file path text w' in
              elim unwritten [ some e ↦ (w'', some (Error.write_error e)) | none ↦ (w'', none) ]
        ]
      ]

  -- `Save`.
  unfoldable pub save : Bytes → Config → W → W × Option (Error E)
  save path c w = elim (validated w c (dir path)) [
    | err e ↦ (w, some e)
    | ok valid ↦ write_config path c w
  ]
