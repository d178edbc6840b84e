-- ===== src/ModelChannel/Ids.antt =====
-- Different channels have different ids.
use cursor_switch.Common.{
  ℕ, ◌≡◌, refl, sym, ap, inl, inr, ◌∙◌, Bool, true, not, ◌&&◌, List, [], ◌∷◌, ◌++◌, arith,
  ◌==◌ as nat_eq, if◌then◌else◌, take, Bool-cases,
}
use cursor_switch.Common.Text.{Text, trim_space}
use cursor_switch.Messages.{is_empty}
use cursor_switch.ModelChannel.Identity.{
  channel_id_hex_length, join_lines, ChannelFields, legacy_parts, channel_id_of_parts,
  build_legacy_channel_id, build_channel_id,
}

abbrev pub is_one_line : Text → Bool
is_one_line [] = true
is_one_line (c ∷ s) = not (nat_eq c 10) && is_one_line s

abbrev are_lines : List Text → Bool
are_lines [] = true
are_lines (part ∷ parts) = is_one_line part && are_lines parts

to_first : ℕ → List Text → List Text
to_first c [] = (c ∷ []) ∷ []
to_first c (line ∷ lines) = (c ∷ line) ∷ lines

split_lines : Text → List Text
unfolding to_first
split_lines [] = [] ∷ []
split_lines (c ∷ s) =
    let lines = split_lines s in if nat_eq c 10 then [] ∷ lines else to_first c lines

split_lines-one : (s : Text) → is_one_line s ≡ true → split_lines s ≡ s ∷ []
unfolding split_lines to_first
split_lines-one [] h = refl
split_lines-one (c ∷ s) h = ground (arith, split_lines-one s)

split_lines-append :
    (s rest : Text) → is_one_line s ≡ true → split_lines (s ++ (10 ∷ rest)) ≡ s ∷ split_lines rest
unfolding split_lines to_first
split_lines-append [] rest h = refl
split_lines-append (c ∷ s) rest h = ground (arith, split_lines-append s rest)

split_lines-join_lines :
    (part : Text) (parts : List Text)
    → are_lines (part ∷ parts) ≡ true
    → split_lines (join_lines (part ∷ parts)) ≡ part ∷ parts
unfolding join_lines
split_lines-join_lines part [] h = split_lines-one part (ground arith)
split_lines-join_lines part (next ∷ parts) h =
    split_lines-append part (join_lines (next ∷ parts)) (ground arith)
    ∙ ap (◌∷◌ part) (split_lines-join_lines next parts (ground arith))

-- The parts that the id of a channel is made of.
abbrev pub id_parts : ChannelFields → List Text
id_parts fields =
    if is_empty (trim_space fields.openai_endpoint)
    then legacy_parts fields
    else legacy_parts fields ++ trim_space fields.openai_endpoint ∷ []

abbrev pub HasLines : ChannelFields → Type 0
HasLines fields =
    (is_one_line (trim_space fields.base_url) ≡ true)
    × (is_one_line (trim_space fields.model_id) ≡ true)
    × (is_one_line (trim_space fields.api_key) ≡ true)
    × (is_one_line (trim_space fields.display_name) ≡ true)
    × (is_one_line (trim_space fields.openai_endpoint) ≡ true)

abbrev pub SameFields : ChannelFields → ChannelFields → Type 0
SameFields a b =
    (trim_space a.base_url ≡ trim_space b.base_url)
    × (trim_space a.model_id ≡ trim_space b.model_id)
    × (trim_space a.api_key ≡ trim_space b.api_key)
    × (trim_space a.display_name ≡ trim_space b.display_name)
    × (trim_space a.openai_endpoint ≡ trim_space b.openai_endpoint)

build_channel_id_parts :
    (digest : Text → Text) (fields : ChannelFields)
    → build_channel_id digest fields
      ≡ take channel_id_hex_length (digest (join_lines (id_parts fields)))
unfolding build_channel_id build_legacy_channel_id channel_id_of_parts
build_channel_id_parts digest fields =
    elim (Bool-cases (is_empty (trim_space fields.openai_endpoint))) [
      | inl blank ↦ rw blank refl
      | inr named ↦ rw named refl
    ]

split_lines-id_parts :
    (fields : ChannelFields)
    → HasLines fields
    → split_lines (join_lines (id_parts fields)) ≡ id_parts fields
split_lines-id_parts fields h =
    let four =
      trim_space fields.model_id
      ∷ trim_space fields.api_key
      ∷ trim_space fields.display_name
      ∷ [] in
    elim (Bool-cases (is_empty (trim_space fields.openai_endpoint))) [
      | inl blank ↦
          rw blank (split_lines-join_lines (trim_space fields.base_url) four (ground arith))
      | inr named ↦ rw named (
          split_lines-join_lines (trim_space fields.base_url)
            (four ++ trim_space fields.openai_endpoint ∷ []) (ground arith))
    ]

same-id_parts : (a b : ChannelFields) → id_parts a ≡ id_parts b → SameFields a b
same-id_parts a b h = ground arith

-- Two channels of which no field has a line break in it get the same id only if all their fields are
-- the same up to white space around them, as long as the digests of the two texts that are hashed
-- differ in their first 16 digits when the texts do.
pub build_channel_id-SameFields :
    (digest : Text → Text) (a b : ChannelFields)
    → HasLines a
    → HasLines b
    → (take channel_id_hex_length (digest (join_lines (id_parts a)))
          ≡ take channel_id_hex_length (digest (join_lines (id_parts b)))
        → join_lines (id_parts a) ≡ join_lines (id_parts b))
    → build_channel_id digest a ≡ build_channel_id digest b
    → SameFields a b
build_channel_id-SameFields digest a b lines_a lines_b no_collision same = same-id_parts a b (
    sym (split_lines-id_parts a lines_a)
    ∙ ap split_lines (
        no_collision
          (sym (build_channel_id_parts digest a) ∙ same ∙ build_channel_id_parts digest b))
    ∙ split_lines-id_parts b lines_b)
