-- ===== src/Console/Templates.antt =====
-- The templates: `handleListTemplates`, `handleSaveTemplate` and `handleDeleteTemplate`.
use stem_computing_desktop_p.Prelude.{
  Bool, true, false, not, Option, none, some, List, [], ◌∷◌, ◌++◌, if◌then◌else◌, any, filter,
  is_empty, modify_last,
}
use stem_computing_desktop_p.Text.{Text, codes, text_eq, clean_text, equal_fold}
use stem_computing_desktop_p.Prelude.Int.{pos}
use stem_computing_desktop_p.Platform.{Platform}
use stem_computing_desktop_p.Model.{Target, AlertSpec, Template, State}
use stem_computing_desktop_p.App.{App, World, Response, refused, reply, save, with_state}
use stem_computing_desktop_p.Console.Spec.{ok, err, validate_spec}

-- handleListTemplates
unfoldable pub handle_list_templates : App → App × Response (List Template)
handle_list_templates a = (a, reply 200 a.store.state.templates)

abbrev pub with_templates : List Template → State → State
with_templates ts st = record st { templates = ts }

-- the target that a template is checked with, and the one that it is stored with
abbrev pub all_targets : Target
all_targets = record { all = true; group_ids = []; rules = [] }

abbrev pub no_target : Target
no_target = record { all = false; group_ids = []; rules = [] }

-- the checks of `handleSaveTemplate`: the tidied name and spec, or the refusal
unfoldable pub check_template : Platform → Template → Response (Text × AlertSpec)
check_template e req =
    let name = clean_text req.name 60 in
    if is_empty name
    then refused 400 (codes "invalid")
    else elim (validate_spec e (record (req.spec) { target = all_targets })) [
      | err _ ↦ refused 400 (codes "invalid")
      | ok spec ↦ reply 200 (name, record spec { target = no_target })
    ]

-- the last template of this name, or a new one
abbrev pub template_for : Platform → Text → Text → List Template → Template
template_for e id name [] = record {
  id = id;
  name = [];
  spec = record {
    title = [];
    message = [];
    level = [];
    display = [];
    require_ack = false;
    display_seconds = pos 0;
    sound = false;
    link = [];
    expires_minutes = pos 0;
    target = no_target;
  };
}
template_for e id name (t ∷ ts) =
    let rest = template_for e id name ts in
    if any (λ (x : Template). equal_fold e.unicode x.name name) ts
    then rest
    else if equal_fold e.unicode t.name name
    then t
    else rest

abbrev pub put_template : Platform → Template → List Template → List Template
put_template e t ts =
    if any (λ (x : Template). equal_fold e.unicode x.name t.name) ts
    then modify_last (λ (x : Template). equal_fold e.unicode x.name t.name) (λ _. t) ts
    else ts ++ t ∷ []

-- handleSaveTemplate
unfoldable pub handle_save_template :
    Platform → World → Option Template → App → App × Response Template
unfolding check_template equal_fold save
handle_save_template e w none a = (a, refused 400 (codes "bad_json"))
handle_save_template e w (some req) a =
    let st = a.store.state in
    elim (check_template e req) [
      | refused status code ↦ (a, refused status code)
      | reply _ (name, spec) ↦
          let t = record (template_for e w.new_id name st.templates) { name = name; spec = spec } in
          (save w (with_state a (with_templates (put_template e t st.templates) st)), reply 200 t)
    ]

-- handleDeleteTemplate
unfoldable pub handle_delete_template : World → Text → App → App × Response Bool
unfolding save
handle_delete_template w tid a =
    let st = a.store.state in
    (
      save w (
          with_state a
            (with_templates (filter (λ (t : Template). not (text_eq t.id tid)) st.templates) st)),
      reply 200 true,
    )
