-- ===== src/Permission.antt =====
-- The dialog for the permissions of a user or a group: `ChangePermissionView`
-- (src/web/js/azkaban.permission.view.js).
use azkaban.Prelude.{List, [], ◌∷◌, Bool, true, false, ◌≡◌, refl, ◌||◌, arith, if◌then◌else◌}

pub record Permission : Type 0 where
  pub admin : Bool
  pub read : Bool
  pub write : Bool
  pub execute : Bool
  pub schedule : Bool

pub data Label : Type 0 where
  commit remove : Label

-- The boxes and the button of the dialog. `fixed` says of the four boxes below `admin` that they
-- cannot be clicked, `greyed` that the button has the class `btn-disabled`.
pub record Dialog : Type 0 where
  pub checked : Permission
  pub fixed : Bool
  pub label : Label
  pub greyed : Bool
  pub enabled : Bool

pub record View : Type 0 where
  pub permission : Permission
  pub new_perm : Bool
  pub do_proxy : Bool
  pub dialog : Dialog

pub data Box : Type 0 where
  admin_box read_box write_box execute_box schedule_box proxy_box : Box

abbrev has_any : Permission → Bool
has_any p = p.admin || p.read || p.write || p.execute || p.schedule

-- `changeCheckbox`. `$("#change-btn").disabled = true` sets a property of the jQuery object and not of
-- the button, which stays enabled.
change_checkbox : View → View
change_checkbox v =
    let p = v.permission in
    record v {
      dialog = record {
        checked =
            if p.admin
            then record { admin = true; read = true; write = true; execute = true; schedule = true }
            else record p { admin = false };
        fixed = p.admin;
        label = if has_any p then commit else if v.new_perm then v.dialog.label else remove;
        greyed = if has_any p then false else v.new_perm;
        enabled = true;
      };
    }

-- What `display` sets: a new permission may read, otherwise it is that of the row's boxes.
abbrev pub opened : Bool → Permission → View → View
opened new_perm row v = record v {
  permission =
      if new_perm
      then record { admin = false; read = true; write = false; execute = false; schedule = false }
      else row;
  new_perm = new_perm;
}

pub display : Bool → Permission → View → View
unfolding change_checkbox
display new_perm row v = change_checkbox (opened new_perm row v)

abbrev set_box : Box → Bool → View → View
set_box admin_box b v = record v { permission = record (v.permission) { admin = b } }
set_box read_box b v = record v { permission = record (v.permission) { read = b } }
set_box write_box b v = record v { permission = record (v.permission) { write = b } }
set_box execute_box b v = record v { permission = record (v.permission) { execute = b } }
set_box schedule_box b v = record v { permission = record (v.permission) { schedule = b } }
set_box proxy_box b v = record v { do_proxy = b }

-- `handleCheckboxClick`
pub handle_checkbox_click : Box → Bool → View → View
unfolding change_checkbox
handle_checkbox_click box checked v = change_checkbox (set_box box checked v)

-- `handleChangePermissions`: the permission that is sent. The one that it reads off the boxes is not
-- used.
unfoldable pub sent_permission : View → Permission
sent_permission v = v.permission

pub click_all : List (Box × Bool) → View → View
unfolding handle_checkbox_click
click_all [] v = v
click_all ((b, c) ∷ clicks) v = click_all clicks (handle_checkbox_click b c v)

-- What a permission allows: an administrator is allowed everything.
abbrev allowed : Permission → Permission
allowed p = record {
  admin = p.admin;
  read = p.admin || p.read;
  write = p.admin || p.write;
  execute = p.admin || p.execute;
  schedule = p.admin || p.schedule;
}

pub record IsShown (v : View) : Type 0 where
  pub boxes : v.dialog.checked ≡ allowed v.permission
  pub locked : v.dialog.fixed ≡ v.permission.admin
  pub removes : has_any v.permission ≡ false → v.new_perm ≡ false → v.dialog.label ≡ remove
  pub commits : has_any v.permission ≡ true → v.dialog.label ≡ commit

change_checkbox-IsShown : (v : View) → IsShown (change_checkbox v)
unfolding change_checkbox
change_checkbox-IsShown v = record {
  boxes = ground arith;
  locked = refl;
  removes = λ e f. ground (arith, e, f);
  commits = λ e. ground (arith, e);
}

click_all-keeps : (clicks : List (Box × Bool)) (v : View) → IsShown v → IsShown (click_all clicks v)
unfolding click_all
click_all-keeps [] v h = h
click_all-keeps ((b, c) ∷ clicks) v h =
    click_all-keeps clicks (handle_checkbox_click b c v) (change_checkbox-IsShown (set_box b c v))

-- After the dialog is opened, and after any clicks, the boxes show what the permission that would be
-- sent allows, the four boxes below `admin` are locked exactly for an administrator, and the button
-- says "Commit" for a permission that has any right and "Remove" for an old one that has none.
pub click_all-IsShown :
    (clicks : List (Box × Bool)) (new_perm : Bool) (row : Permission) (v : View)
    → IsShown (click_all clicks (display new_perm row v))
unfolding display
click_all-IsShown clicks new_perm row v =
    click_all-keeps clicks (display new_perm row v)
      (change_checkbox-IsShown (opened new_perm row v))

-- Making a user an administrator and taking that back leaves the rights, and what the boxes show, as
-- they were.
pub handle_checkbox_click-admin :
    (v : View)
    → v.permission.admin ≡ false
    → IsShown v
    → (sent_permission
          (handle_checkbox_click admin_box false (handle_checkbox_click admin_box true v))
        ≡ v.permission)
      × ((handle_checkbox_click admin_box false
            (handle_checkbox_click admin_box true v)).dialog.checked
          ≡ v.dialog.checked)
unfolding handle_checkbox_click sent_permission change_checkbox
handle_checkbox_click-admin v h shown = (ground arith, ground (arith, shown.boxes))

-- For an administrator the boxes that are shown are those of the permission that is sent only if it
-- has every right by itself.
pub sent_permission-checked :
    (v : View)
    → IsShown v
    → v.permission.admin ≡ true
    → v.dialog.checked ≡ sent_permission v
    → (v.permission.read ≡ true)
      × (v.permission.write ≡ true)
      × (v.permission.execute ≡ true)
      × (v.permission.schedule ≡ true)
unfolding sent_permission
sent_permission-checked v shown h same = ground (arith, shown.boxes, h, same)
