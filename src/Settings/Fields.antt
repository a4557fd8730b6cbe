-- ===== src/Settings/Fields.antt =====
-- client-windows/webui/src/components/AdvancedSettings.tsx: the folded fields, and when they open.
use cyberstalk_me.Base.{
  Bool, true, false, not, ◌&&◌, Option, none, some, List, [], ◌∷◌, ◌++◌, Text, codes, any,
  if◌then◌else◌,
}
use cyberstalk_me.Api.{Draft}
use cyberstalk_me.Settings.{FieldView, flagged}

abbrev pub owned_fields : List Text
owned_fields =
    codes "device_name"
    ∷ codes "idle_threshold"
    ∷ codes "default_app"
    ∷ codes "default_description"
    ∷ codes "locked_app"
    ∷ codes "locked_description"
    ∷ []

unfoldable pub has_flagged_field : List Text → Bool
has_flagged_field fields = any (λ f. flagged owned_fields f) fields

-- The panel, and the value of `hasFlaggedField` that its effect last ran for.
pub record Panel : Type 0 where
  pub is_open : Bool
  pub seen : Bool

-- The first render runs the effect.
unfoldable pub mounted : List Text → Panel
unfolding has_flagged_field
mounted fields = record { is_open = has_flagged_field fields; seen = has_flagged_field fields }

-- A render with these fields: the effect runs when the value has changed.
unfoldable pub rendered : List Text → Panel → Panel
unfolding has_flagged_field
rendered fields panel = record {
  is_open = if has_flagged_field fields && not panel.seen then true else panel.is_open;
  seen = has_flagged_field fields;
}

-- The trigger's `onOpenChange`.
abbrev pub toggled : Bool → Panel → Panel
toggled next panel = record panel { is_open = next }

abbrev quiet_field : Text → Option Text → Text → Text → FieldView
quiet_field label hint value placeholder = record {
  label = label;
  hint = hint;
  error = none;
  value = value;
  placeholder = placeholder;
  invalid = false;
  masked = false;
}

unfoldable pub advanced_fields : Draft → Draft → List Text → List FieldView
advanced_fields draft defaults fields =
    quiet_field (codes "设备名") (some (codes "只影响本机日志，站点上显示的名字由服务端登记时决定")) draft.device_name
      (codes "我的台式机")
    ∷ record {
      label = codes "多久没操作算空闲";
      hint = some (codes "留空按 " ++ defaults.idle_threshold);
      error =
          if flagged fields (codes "idle_threshold")
          then some (codes "写法形如 5m、90s，或直接写秒数")
          else none;
      value = draft.idle_threshold;
      placeholder = defaults.idle_threshold;
      invalid = flagged fields (codes "idle_threshold");
      masked = false;
    }
    ∷ quiet_field (codes "没配规则的应用显示成") (some (codes "故意笼统：exe 名字本身就可能泄露信息")) draft.default_app
        defaults.default_app
    ∷ quiet_field (codes "没配规则时在干什么") none draft.default_description defaults.default_description
    ∷ quiet_field (codes "锁屏时显示成") none draft.locked_app defaults.locked_app
    ∷ quiet_field (codes "锁屏时在干什么") none draft.locked_description defaults.locked_description
    ∷ []
