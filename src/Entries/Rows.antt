-- ===== src/Entries/Rows.antt =====
-- The row types of src/mcm_engine/backends/__init__.py: the four legacy rows and the unified entry. A
-- moment is a number; a flag that the database may hold as an integer is a Boolean.
use mcm_engine.Base.{ℕ, String, Bool, Option, List}
use mcm_engine.Base.Dict.{Dict}

-- One element of `references`.
pub record Reference : Type 0 where
  pub ref_type : String
  pub target : String
  pub note : Option String

pub record KnowledgeRow : Type 0 where
  pub id : ℕ
  pub topic : String
  pub summary : String
  pub kind : String
  pub detail : Option String
  pub tags : Option String
  pub project : Option String
  pub rationale : Option String
  pub alternatives : Option String
  pub references : Option (List Reference)
  pub hit_count : ℕ
  pub last_hit_at : Option ℕ
  pub reinforcement_count : ℕ
  pub pinned : Bool
  pub created_at : Option ℕ
  pub updated_at : Option ℕ
  pub source_classification : Option String
  pub status : String
  pub superseded_by : Option ℕ
  pub valid_until : Option ℕ

pub record NegativeRow : Type 0 where
  pub id : ℕ
  pub category : String
  pub what_failed : String
  pub why_failed : Option String
  pub correct_approach : Option String
  pub severity : String
  pub project : Option String
  pub pinned : Bool
  pub created_at : Option ℕ
  pub source_classification : Option String

pub record ErrorRow : Type 0 where
  pub id : ℕ
  pub pattern_text : String
  pub context : Option String
  pub root_cause : Option String
  pub fix : Option String
  pub tags : Option String
  pub project : Option String
  pub pinned : Bool
  pub created_at : Option ℕ
  pub source_classification : Option String

pub record RuleRow : Type 0 where
  pub id : ℕ
  pub title : String
  pub keywords : String
  pub file_path : Option String
  pub description : Option String
  pub category : Option String
  pub hit_count : ℕ
  pub last_hit_at : Option ℕ
  pub reinforcement_count : ℕ
  pub pinned : Bool
  pub content_hash : Option String
  pub archived : Bool
  pub archived_at : Option ℕ
  pub created_at : Option ℕ
  pub updated_at : Option ℕ
  pub content : Option String
  pub created_by : Option String
  pub updated_by : Option String
  pub correct_count : ℕ
  pub incorrect_count : ℕ
  pub valid_until : Option ℕ
  pub superseded_by : Option ℕ
  pub status : String
  pub importance : ℕ
  pub scope : String
  pub kind : String
  pub source_classification : Option String

-- A value of the facets' dictionary. A moment stands for its ISO text, which `fromisoformat` reads
-- back.
pub data Facet : Type 0 where
  text : String → Facet
  number : ℕ → Facet
  flag : Bool → Facet
  links : List Reference → Facet
  moment : ℕ → Facet

pub record Entry : Type 0 where
  pub kind : String
  pub id : ℕ
  pub title : String
  pub summary : Option String
  pub body : Option String
  pub tags : Option String
  pub project : Option String
  pub subkind : Option String
  pub pinned : Bool
  pub status : String
  pub superseded_by : Option ℕ
  pub valid_until : Option ℕ
  pub hit_count : ℕ
  pub last_hit_at : Option ℕ
  pub reinforcement_count : ℕ
  pub created_at : Option ℕ
  pub updated_at : Option ℕ
  pub source_classification : Option String
  pub facets : Dict String Facet
