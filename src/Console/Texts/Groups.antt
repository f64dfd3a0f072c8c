-- ===== src/Console/Texts/Groups.antt =====
-- src/modules/mgr/mgr_sitegroups.cpp: the literal texts of its pages and queries.
use evcp.Base.{[], ◌∷◌, Bytes}
use evcp.Base.Text.{texts}

-- The query of `mgrSiteGroupList`
unfoldable pub groups_query : Bytes
groups_query =
    texts ("SELECT i.groupId, i.groupName " ∷ "FROM site_groups i " ∷ "ORDER BY groupName" ∷ [])

-- The list of groups, in front of its rows
unfoldable pub groups_head : Bytes
groups_head = texts (
    "<doc mtime=\"45gvergv4rg\" binary=\"/mgr/\" theme=\"/sirius/\" "
    ∷ "fixpng=\"\" localdir=\"local/\" img=\"\" css=\"main.css\" logolink=\"/mgr/\" logo=\"logo-vdsmgr.png\" >"
    ∷ "<p_num>1</p_num>" ∷ "<p_cnt>30</p_cnt>" ∷ "<p_sort>''</p_sort>" ∷ "<p_order>''</p_order>"
    ∷ "<plid></plid>" ∷ "<func>sitegroups</func>" ∷ "<slave></slave>" ∷ "<tfilter></tfilter>"
    ∷ "<metadata type=\"list\" selficon=\"equipment\" key=\"gid\">"
    ∷ "<coldata type=\"list\" key=\"gid\">"
    ∷ "<col type=\"data\" name=\"gid\" wrap=\"no\" align=\"left\" />"
    ∷ "<col type=\"data\" name=\"gname\" wrap=\"no\" align=\"left\" />"
    ∷ "<col type=\"data\" name=\"sites\" wrap=\"no\" align=\"left\" />"
    ∷ "<col type=\"data\" name=\"problems\" wrap=\"no\" align=\"left\" />" ∷ "</coldata>"
    ∷ "<toolbar type=\"list\" key=\"sss\">"
    ∷ "<toolbtn type=\"func\" name=\"sitegroupcreate\" img=\"t-new\" default=\"no\" func=\"tb_op_new('sitegroupadd')\" />"
    ∷ "<toolbtn type=\"func\" name=\"sitegroupedit\" img=\"t-edit\" default=\"yes\" func=\"tb_op_new('sitegroupedit')\" />"
    ∷ "<toolbtn type=\"editlist\" name=\"sitegroupdelete\" img=\"t-delete\" func=\"sitegroupdel\" />"
    ∷ "</toolbar>" ∷ "</metadata>" ∷ [])

-- The list of groups, behind its rows
unfoldable pub groups_tail : Bytes
groups_tail = texts (
    "<messages>" ∷ "<msg name=\"title\">Группы сайтов</msg>" ∷ "<msg name=\"gid\">ID</msg>"
    ∷ "<msg name=\"gname\">Имя группы</msg>" ∷ "<msg name=\"sites\">Всего сайтов</msg>"
    ∷ "<msg name=\"problems\">Проблем</msg>"
    ∷ "<msg name=\"hint_ipcreate\">Добавить группу в список</msg>"
    ∷ "<msg name=\"hint_ipedit\">Изменить свойства группы</msg>"
    ∷ "<msg name=\"hint_ipdelete\">Удалить группу</msg>"
    ∷ "<msg name=\"msg_nosel\">Ничего не выделено</msg>" ∷ "</messages>" ∷ "</doc>" ∷ [])

-- The form of a new group
unfoldable pub group_form : Bytes
group_form = texts (
    "<doc mtime=\"45gvergv4rg\" binary=\"/mgr/\" theme=\"/sirius/\" "
    ∷ "fixpng=\"no\" localdir=\"local/\" img=\"\" css=\"main.css\">" ∷ "<plid></plid>"
    ∷ "<func>sitegroupadd</func>" ∷ "<slave>0</slave>"
    ∷ "<metadata type=\"form\" name=\"sitegroupadd\">"
    ∷ "<form height=\"200\" maxwidth=\"300\" focus=\"single\" top=\"yes\" extokmsg=\"dddd\">"
    ∷ "<page name=\"single\">"
    ∷ "<field name=\"newname\"><input type=\"text\" name=\"newname\" /></field>" ∷ "</page>"
    ∷ "</form>" ∷ "</metadata>" ∷ "<messages>"
    ∷ "<msg name=\"title\">Добавление группы сайтов</msg>" ∷ "<msg name=\"single\">По одной</msg>"
    ∷ "<msg name=\"msg_extokmsg\">Создать</msg>" ∷ "<msg name=\"msg_back\">Отмена</msg>"
    ∷ "<msg name=\"newname\">Имя новой группы</msg>" ∷ "</messages>" ∷ "<pwgenlen>'8'</pwgenlen>"
    ∷ "<pwgencharacters></pwgencharacters>" ∷ "</doc>" ∷ [])
