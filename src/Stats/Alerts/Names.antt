-- ===== src/Stats/Alerts/Names.antt =====
-- backend/app/services/stats_service.py, `_similar_name_alerts` and `_lado`: the pairs of names that
-- are nearly the same, each once. `seen` is the set of the pairs met so far, as a list.
use core_desappsii.Base.{
  Bool, true, false, ◌&&◌, ◌||◌, not, some, List, [], ◌∷◌, ◌++◌, if◌then◌else◌, is_empty, any,
}
use core_desappsii.Base.Counts.{get_list}
use core_desappsii.Text.{Text, lit, text_eq}
use core_desappsii.Stats.Words.{sorted, is_near_duplicate}
use core_desappsii.Stats.Alerts.{Alert, Severity, Kind}

-- `", ".join(names)`
unfoldable pub comma_join : List Text → Text
comma_join [] = []
comma_join (x ∷ []) = x
comma_join (x ∷ (y ∷ ys)) = x ++ lit ", " ++ comma_join (y ∷ ys)

unfoldable pub names_or_nobody : List Text → Text
unfolding comma_join
names_or_nobody names = if is_empty names then lit "nadie" else comma_join names

-- `_lado`
unfoldable pub lado : Text → List Text → List Text → Text
unfolding names_or_nobody
lado nombre publica consume =
    lit "'"
    ++ nombre
    ++ lit "' (publica: "
    ++ names_or_nobody publica
    ++ lit " · consume: "
    ++ names_or_nobody consume
    ++ lit ")"

-- The sentence that is added when one of the names is in use and the other is not.
unfoldable pub suggestion : (left right : Text) → (left_vacio right_vacio : Bool) → Text
suggestion left right true true = []
suggestion left right false false = []
suggestion left right true false =
    lit " Sugerencia: '"
    ++ left
    ++ lit "' no lo usa nadie, asi que conviene unificar en '"
    ++ right
    ++ lit "'."
suggestion left right false true =
    lit " Sugerencia: '"
    ++ right
    ++ lit "' no lo usa nadie, asi que conviene unificar en '"
    ++ left
    ++ lit "'."

-- `(left, right) in seen`
abbrev pub is_seen_pair : Text → Text → List (Text × Text) → Bool
is_seen_pair left right seen = any (λ p. text_eq p.0 left && text_eq p.1 right) seen

module _ (producers consumers : List (Text × List Text)) where
  unfoldable pub similar_alert : (left right : Text) → Alert
  unfolding lado suggestion sorted get_list
  similar_alert left right =
      let pub_left = sorted (get_list text_eq left producers) in
      let con_left = sorted (get_list text_eq left consumers) in
      let pub_right = sorted (get_list text_eq right producers) in
      let con_right = sorted (get_list text_eq right consumers) in
      record {
        severity = Severity.warning;
        kind = Kind.similar_names;
        event_type = left;
        detail =
            lit "Nombres sospechosamente parecidos. "
            ++ lado left pub_left con_left
            ++ lit " y "
            ++ lado right pub_right con_right
            ++ lit ". Si son el mismo evento, el que publica con un nombre no le llega al que "
            ++ lit "consume con el otro."
            ++ suggestion left right (is_empty pub_left && is_empty con_left)
                (is_empty pub_right && is_empty con_right);
        pair = some (record {
          counterpart = right;
          published_by = pub_left;
          consumed_by = con_left;
          counterpart_published_by = pub_right;
          counterpart_consumed_by = con_right;
        });
      }

  -- The inner loop: the alerts it appends and `seen` after it.
  unfoldable pub pair_alerts :
      Text → List Text → List (Text × Text) → List Alert × List (Text × Text)
  unfolding similar_alert is_near_duplicate
  pair_alerts left [] seen = ([], seen)
  pair_alerts left (right ∷ rights) seen =
      let skipped = pair_alerts left rights seen in
      let added = pair_alerts left rights ((left, right) ∷ seen) in
      if is_seen_pair left right seen || not (is_near_duplicate left right)
      then skipped
      else (similar_alert left right ∷ added.0, added.1)

  unfoldable pub name_alerts : List Text → List (Text × Text) → List Alert
  unfolding pair_alerts
  name_alerts [] seen = []
  name_alerts (left ∷ names) seen =
      let (found, seen') = pair_alerts left names seen in found ++ name_alerts names seen'

  -- `_similar_name_alerts`
  unfoldable pub similar_name_alerts : List Text → List Alert
  unfolding name_alerts
  similar_name_alerts names = name_alerts names []
