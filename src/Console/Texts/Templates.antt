-- ===== src/Console/Texts/Templates.antt =====
-- src/modules/mgr/mgr_oslist.cpp: the literal texts of its pages.
use evcp.Base.{[], ◌∷◌, Bytes}
use evcp.Base.Text.{texts}

-- The list of templates, in front of its rows
unfoldable pub templates_head : Bytes
templates_head = texts (
    "<doc mtime=\"45gvergv4rg\" binary=\"/mgr/\" theme=\"/sirius/\" "
    ∷ "fixpng=\"\" localdir=\"local/\" img=\"\" css=\"main.css\" logolink=\"/mgr/\" logo=\"logo-vdsmgr.png\" >"
    ∷ "<p_num>1</p_num>" ∷ "<p_cnt>1</p_cnt>" ∷ "<p_sort>''</p_sort>" ∷ "<p_order>''</p_order>"
    ∷ "<plid></plid>" ∷ "<func>vds</func>" ∷ "<slave>0</slave>" ∷ "<tfilter></tfilter>"
    ∷ "<metadata type=\"list\" selficon=\"main\" key=\"ostempl\">" ∷ "<coldata type=\"list\">"
    ∷ "<col type=\"data\" name=\"ostempl\" wrap=\"no\" align=\"left\" />"
    ∷ "<col type=\"data\" name=\"mtime\" wrap=\"no\" align=\"left\" />"
    ∷ "<col type=\"data\" name=\"size\" wrap=\"no\" align=\"left\" />"
    ∷ "<col type=\"data\" name=\"status\" wrap=\"no\" align=\"left\" />" ∷ "</coldata>"
    ∷ "<toolbar type=\"list\">"
    ∷ "<toolbtn type=\"func\" name=\"create\" img=\"t-new\" default=\"yes\" func=\"tb_op_new('osadd')\" />"
    ∷ "<toolbtn type=\"groupedit\" img=\"t-delete\" default=\"no\" func=\"osdel\" />" ∷ "</toolbar>"
    ∷ "</metadata>" ∷ [])

-- The list of templates, behind its rows
unfoldable pub templates_tail : Bytes
templates_tail = texts (
    "<messages>" ∷ "<msg name=\"title\">Шаблоны ОС</msg>" ∷ "<msg name=\"ostempl\">Шаблон ОС</msg>"
    ∷ "<msg name=\"status\">Состояние</msg>" ∷ "<msg name=\"size\">Размер</msg>"
    ∷ "<msg name=\"mtime\">Дата создания</msg>"
    ∷ "<msg name=\"hint_create\">Добавить новый шаблон ОС из репозитория</msg>" ∷ "</messages>"
    ∷ "</doc>" ∷ [])

-- The form of a new template
unfoldable pub template_form : Bytes
template_form = texts (
    "<doc mtime=\"45gvergv4rg\" binary=\"/mgr/\" theme=\"/sirius/\" "
    ∷ "fixpng=\"no\" localdir=\"local/\" img=\"\" css=\"main.css\">" ∷ "<plid></plid>"
    ∷ "<func>osadd</func>" ∷ "<slave>0</slave>" ∷ "<metadata type=\"form\" name=\"osadd\">"
    ∷ "<form height=\"200\" maxwidth=\"300\" focus=\"single\" top=\"yes\" extokmsg=\"dddd\">"
    ∷ "<page>" ∷ "<field name=\"ostemplate\"><select name=\"ostemplate\" /></field>" ∷ "</page>"
    ∷ "</form>" ∷ "</metadata>" ∷ "<messages>" ∷ "<msg name=\"title\">Добавление Шаблонов ОС</msg>"
    ∷ "<msg name=\"msg_extokmsg\">Создать</msg>" ∷ "<msg name=\"msg_back\">Отмена</msg>"
    ∷ "<msg name=\"ostemplate\">Новый IP-адрес</msg>" ∷ "</messages>" ∷ "<pwgenlen>'8'</pwgenlen>"
    ∷ "<pwgencharacters></pwgencharacters>" ∷ "<slist name=\"ostemplate\">" ∷ "</slist>" ∷ "</doc>"
    ∷ [])
