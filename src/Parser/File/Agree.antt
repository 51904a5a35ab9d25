-- ===== src/Parser/File/Agree.antt =====
-- The extension table and the languages' own extensions name the same languages.
use agent_coderag.Prelude.{
  ◌≡◌, refl, ◌↔◌, ◌∙◌, ap, Bool, true, false, ◌&&◌, Option, none, some, List, [], ◌∷◌, Text, ◌==◌,
  text_eq, arith, contains, Bool-cases, inl, inr,
}
use agent_coderag.Prelude.Dict.{Dict, lookup}
use agent_coderag.Parser.Tree.{LanguageConfig}
use agent_coderag.Parser.Languages.{languages, extension_to_language}
use agent_coderag.Parser.File.{config_of}

abbrev has_id : Text → Option LanguageConfig → Bool
has_id lang none = false
has_id lang (some cfg) = cfg.id == lang

-- Every entry of the table leads to the configuration of its language.
entries_agree : Dict Text Text → Bool
entries_agree [] = true
entries_agree ((ext, lang) ∷ d) = has_id lang (config_of ext languages) && entries_agree d

has_entries : Text → List Text → Bool
has_entries lang [] = true
has_entries lang (ext ∷ exts) =
    (elim (lookup ext extension_to_language) [ none ↦ false | some l ↦ l == lang ])
    && has_entries lang exts

languages_agree : List LanguageConfig → Bool
languages_agree [] = true
languages_agree (cfg ∷ cfgs) = has_entries cfg.id cfg.extensions && languages_agree cfgs

table_agrees : entries_agree extension_to_language ≡ true
unfolding entries_agree config_of text_eq
table_agrees = refl

configs_agree : languages_agree languages ≡ true
unfolding languages_agree has_entries lookup text_eq
configs_agree = refl

has_id-eq :
    (lang : Text) (o : Option LanguageConfig)
    → has_id lang o ≡ true
    → (cfg : LanguageConfig) × (o ≡ some cfg) × (cfg.id ≡ lang)
has_id-eq lang none h = absurd (ground arith)
has_id-eq lang (some cfg) h = (cfg, refl, ground arith)

entry_has_id :
    (d : Dict Text Text) (ext lang : Text)
    → entries_agree d ≡ true
    → lookup ext d ≡ some lang
    → has_id lang (config_of ext languages) ≡ true
unfolding entries_agree lookup
entry_has_id [] ext lang h e = cc
entry_has_id ((x, l) ∷ d) ext lang h e = ground (arith, entry_has_id d ext lang)

listed :
    (exts : List Text) (lang ext : Text)
    → has_entries lang exts ≡ true
    → contains exts ext ≡ true
    → lookup ext extension_to_language ≡ some lang
unfolding has_entries
listed [] lang ext h e = cc
listed (x ∷ exts) lang ext h e = ground (arith, listed exts lang ext)

config_listed :
    (cfgs : List LanguageConfig) (ext : Text) (cfg : LanguageConfig)
    → languages_agree cfgs ≡ true
    → config_of ext cfgs ≡ some cfg
    → lookup ext extension_to_language ≡ some cfg.id
unfolding languages_agree config_of
config_listed [] ext cfg h e = cc
config_listed (c ∷ cfgs) ext cfg h e = elim (Bool-cases (contains c.extensions ext)) [
  | inl m ↦ ground (arith, listed c.extensions c.id ext, ap (λ (l : LanguageConfig). l.id))
  | inr m ↦ config_listed cfgs ext cfg (ground arith) (ground arith)
]

-- An extension is in the table with a language exactly if the first configuration that lists the
-- extension is the one of that language: the gate of `MultiParser` and the search of
-- `TreeSitterParser` never disagree.
pub extension_to_language_iff :
    (ext lang : Text)
    → (lookup ext extension_to_language ≡ some lang)
      ↔ ((cfg : LanguageConfig) × (config_of ext languages ≡ some cfg) × (cfg.id ≡ lang))
extension_to_language_iff ext lang = (
  λ h. has_id-eq lang _ (entry_has_id extension_to_language ext lang table_agrees h),
  λ (cfg, found, same). config_listed languages ext cfg configs_agree found ∙ ap some same,
)
