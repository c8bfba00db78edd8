-- ===== src/Tests/Samples.antt =====
-- Small servers.
use open_dax.Base.{
  ℕ, ◌≡◌, sym, ap, ◌∙◌, [], ◌∷◌, none, some, replicate, false, Bool-cases, inl, inr, if◌then◌else◌,
  zero, suc,
}
use open_dax.Base.Int.{pos, negsuc}
use open_dax.Text.{CString, codes, strcmp}
use open_dax.Types.{dax_dint, dax_byte}
use open_dax.NameIndex.{get_by_name}
use open_dax.NameIndex.Sorted.{assoc, same_name}
use open_dax.NameIndex.Laws.{get_by_name-assoc}
use open_dax.Event.{Event, Floats, event_write}
use open_dax.Server.{Tag, Server, Module, block}
use open_dax.Tagbase.{Unset}
use open_dax.Tagbase.Names.{Named, name_at}
use open_dax.Tagbase.Adding.{eq-of_same_name}

abbrev pub no_floats : Floats
no_floats = record {
  less32 = λ a b. false;
  less64 = λ a b. false;
  apart32 = λ a b c. false;
  apart64 = λ a b c. false;
}

abbrev pub zeros : Unset
zeros = record {
  behind = λ name. replicate 32 0;
  attr_at = λ n. 0;
  mappings_at = λ n. [];
  byte_at = λ k. 0;
}

-- A client at descriptor 5, and a module that hears of the writes to the tag's first two bytes.
abbrev pub client : Module
client = record {
  id = 9;
  name = codes "mod";
  fd = pos 5;
  tagindex = 3;
  timeout = 0;
  event_count = pos 0;
  tag_groups = [];
  groups_size = 0;
}

abbrev pub writes_heard : Event
writes_heard = record {
  id = 1;
  byte = 0;
  bit = 0;
  count = 2;
  size = 2;
  options = 1;
  datatype = dax_byte;
  eventtype = event_write;
  operand = [];
  test = [];
  notify = 9;
}

abbrev pub tag_ab : Tag
tag_ab = record {
  type = dax_dint;
  attr = 4;
  count = 1;
  name = some (codes "ab");
  fd = negsuc 0;
  nextevent = 2;
  nextmap = 1;
  events = writes_heard ∷ [];
  mappings = [];
  tag_data = block (1 ∷ 2 ∷ 3 ∷ 4 ∷ []);
  omask = none;
  odata = none;
}

-- A server with that tag alone.
abbrev pub one_tag : Server
one_tag = record {
  db = tag_ab ∷ [];
  index = record { name = codes "ab"; tag_idx = 0 } ∷ [];
  dbsize = 1024;
  tagcount = 1;
  ovrdinstalled = 0;
  ovrdset = 0;
  datatypes = [];
  module_tag_type = 0x8000_0000;
  modules = client ∷ [];
  mod_uuid = 0;
  clock = 70;
  output = [];
}

lookup_one :
    (k : CString)
    → get_by_name k one_tag.index ≡ (if same_name k (codes "ab") then some 0 else none)
unfolding assoc
lookup_one k = get_by_name-assoc k one_tag.index (tt, tt)

pub one_tag-Named : Named one_tag
unfolding strcmp
one_tag-Named = record { sorted = (tt, tt); known = known; listed = listed }
  where
    known :
        (k : CString) (n : ℕ) → get_by_name k one_tag.index ≡ some n → name_at one_tag n ≡ some k
    known k n h = elim (Bool-cases (same_name k (codes "ab"))) [
      | inl e ↦
          let here : some 0 ≡ some n =
            sym (lookup_one k ∙ (λ i. if e i then some 0 else none)) ∙ h in
          let at : 0 ≡ n = cc in
          sym (ap (name_at one_tag) at) ∙ ap some (sym (eq-of_same_name k (codes "ab") e))
      | inr e ↦
          let gone : none ≡ some n = sym (lookup_one k ∙ (λ i. if e i then some 0 else none)) ∙ h in
          cc
    ]

    listed :
        (k : CString) (n : ℕ) → name_at one_tag n ≡ some k → get_by_name k one_tag.index ≡ some n
    listed k zero h =
        let same : codes "ab" ≡ k = cc in
        ap (λ k. get_by_name k one_tag.index) (sym same) ∙ lookup_one (codes "ab")
    listed k (suc n) h = cc
